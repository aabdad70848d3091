-- ===== src/Base/Words.antt =====
-- Fixed-width integers as bytes: the standard library's `to_le_bytes`, `from_le_bytes` and their
-- big-endian twins for `u16` and `u32`.
use Prim.Native.Nat.{ℕ, ◌+◌, ◌*◌, ◌/◌, ◌%◌, ◌<◌}
use mathlib.Core.Path.{◌≡◌}
use mathlib.Core.List.{List, [], ◌∷◌}
use native.Mathlib.Omega.{arith}
use msrpce_dcerpc.Base.Lists.{All}

abbrev pub Bytes : Type 0
Bytes = List ℕ

abbrev pub IsU8 : ℕ → Type 0
IsU8 b = b < 256

abbrev pub IsU16 : ℕ → Type 0
IsU16 v = v < 65536

abbrev pub IsU32 : ℕ → Type 0
IsU32 v = v < 4294967296

abbrev pub IsBytes : Bytes → Type 0
IsBytes = All IsU8

-- Rust's `[u8; 4]`.
abbrev pub Array4 : Type 0
Array4 = ℕ × ℕ × ℕ × ℕ

abbrev pub array4_bytes : Array4 → Bytes
array4_bytes (a, b, c, d) = a ∷ b ∷ c ∷ d ∷ []

abbrev pub IsArray4 : Array4 → Type 0
IsArray4 (a, b, c, d) = IsU8 a × IsU8 b × IsU8 c × IsU8 d

abbrev pub u16_to_le_bytes : ℕ → Bytes
u16_to_le_bytes v = v % 256 ∷ v / 256 % 256 ∷ []

abbrev pub u16_to_be_bytes : ℕ → Bytes
u16_to_be_bytes v = v / 256 % 256 ∷ v % 256 ∷ []

abbrev pub u32_to_le_bytes : ℕ → Bytes
u32_to_le_bytes v = v % 256 ∷ v / 256 % 256 ∷ v / 65536 % 256 ∷ v / 16777216 % 256 ∷ []

abbrev pub u32_to_be_bytes : ℕ → Bytes
u32_to_be_bytes v = v / 16777216 % 256 ∷ v / 65536 % 256 ∷ v / 256 % 256 ∷ v % 256 ∷ []

unfoldable pub u16_from_le_bytes : ℕ → ℕ → ℕ
u16_from_le_bytes a b = a + b * 256

unfoldable pub u16_from_be_bytes : ℕ → ℕ → ℕ
u16_from_be_bytes a b = a * 256 + b

unfoldable pub u32_from_le_bytes : ℕ → ℕ → ℕ → ℕ → ℕ
u32_from_le_bytes a b c d = a + b * 256 + c * 65536 + d * 16777216

unfoldable pub u32_from_be_bytes : ℕ → ℕ → ℕ → ℕ → ℕ
u32_from_be_bytes a b c d = a * 16777216 + b * 65536 + c * 256 + d

pub u16_le_bytes_round : (v : ℕ) → IsU16 v → u16_from_le_bytes (v % 256) (v / 256 % 256) ≡ v
unfolding u16_from_le_bytes
u16_le_bytes_round v h = omega arith

pub u16_be_bytes_round : (v : ℕ) → IsU16 v → u16_from_be_bytes (v / 256 % 256) (v % 256) ≡ v
unfolding u16_from_be_bytes
u16_be_bytes_round v h = omega arith

pub u32_le_bytes_round :
    (v : ℕ)
    → IsU32 v
    → u32_from_le_bytes (v % 256) (v / 256 % 256) (v / 65536 % 256) (v / 16777216 % 256) ≡ v
unfolding u32_from_le_bytes
u32_le_bytes_round v h = omega arith

pub u32_be_bytes_round :
    (v : ℕ)
    → IsU32 v
    → u32_from_be_bytes (v / 16777216 % 256) (v / 65536 % 256) (v / 256 % 256) (v % 256) ≡ v
unfolding u32_from_be_bytes
u32_be_bytes_round v h = omega arith

-- What is read back from bytes is written as those bytes.
pub u16_from_le_bytes_round :
    (a b : ℕ) → IsU8 a → IsU8 b → u16_to_le_bytes (u16_from_le_bytes a b) ≡ a ∷ b ∷ []
unfolding u16_from_le_bytes
u16_from_le_bytes_round a b ha hb = ground arith

pub u16_from_be_bytes_round :
    (a b : ℕ) → IsU8 a → IsU8 b → u16_to_be_bytes (u16_from_be_bytes a b) ≡ a ∷ b ∷ []
unfolding u16_from_be_bytes
u16_from_be_bytes_round a b ha hb = ground arith

module _ (a b c d : ℕ) (ha : IsU8 a) (hb : IsU8 b) (hc : IsU8 c) (hd : IsU8 d) where
  pub u32_from_le_bytes_round : u32_to_le_bytes (u32_from_le_bytes a b c d) ≡ a ∷ b ∷ c ∷ d ∷ []
  unfolding u32_from_le_bytes
  u32_from_le_bytes_round = ground arith

  pub u32_from_be_bytes_round : u32_to_be_bytes (u32_from_be_bytes a b c d) ≡ a ∷ b ∷ c ∷ d ∷ []
  unfolding u32_from_be_bytes
  u32_from_be_bytes_round = ground arith

  pub u32_from_le_bytes-IsU32 : IsU32 (u32_from_le_bytes a b c d)
  unfolding u32_from_le_bytes
  u32_from_le_bytes-IsU32 = omega arith

  pub u32_from_be_bytes-IsU32 : IsU32 (u32_from_be_bytes a b c d)
  unfolding u32_from_be_bytes
  u32_from_be_bytes-IsU32 = omega arith

module _ (a b : ℕ) (ha : IsU8 a) (hb : IsU8 b) where
  pub u16_from_le_bytes-IsU16 : IsU16 (u16_from_le_bytes a b)
  unfolding u16_from_le_bytes
  u16_from_le_bytes-IsU16 = omega arith

  pub u16_from_be_bytes-IsU16 : IsU16 (u16_from_be_bytes a b)
  unfolding u16_from_be_bytes
  u16_from_be_bytes-IsU16 = omega arith
