-- ===== src/Base/Bits.antt =====
-- Two fields that do not overlap, put together by `|`.
use Prim.Native.Nat.{ℕ, zero, suc, ◌+◌, ◌*◌, ◌/◌, ◌≤◌, ◌<◌, max, bit_or, digits, bit_or-bitwise}
use mathlib.Core.Path.{◌≡◌, ◌∙◌}
use native.Mathlib.Omega.{arith}

-- `b << k`
abbrev shl : ℕ → ℕ → ℕ
shl zero b = b
shl (suc k) b = shl k b * 2

-- `a | (b << k)` digit by digit, where `a` has no more than `k` digits.
or_digits-shl :
    (k rounds a b : ℕ)
    → a ≤ rounds
    → a < shl k 1
    → digits (λ rest. rest) max rounds a (shl k b) ≡ a + shl k b
or_digits-shl k zero zero b few small = omega arith
or_digits-shl k (suc rounds) zero b few small = omega arith
or_digits-shl k zero (suc a) b few small = absurd (omega arith)
or_digits-shl zero (suc rounds) (suc a) b few small = absurd (omega arith)
or_digits-shl (suc k) (suc rounds) (suc a) b few small =
    let halved : shl k b * 2 / 2 ≡ shl k b = omega arith in
    let upper = or_digits-shl k rounds (suc a / 2) b (omega arith) (omega arith) in
    rw halved (omega (arith, upper))

-- The low half and the high half of a `u32`.
pub bit_or_halfwords : (low high : ℕ) → low < 65536 → bit_or low (high * 65536) ≡ low + high * 65536
bit_or_halfwords low high h =
    let e : shl 16 high ≡ high * 65536 = omega arith in
    bit_or-bitwise low (high * 65536)
    ∙ rw e at (or_digits-shl 16 low low high (omega arith) (omega arith))
