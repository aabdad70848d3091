-- ===== src/Tests/Crates.antt =====
-- Instances of the crates that the model takes as parameters, and a provider.
use mathlib.Core.HLevel.{Σ_prop_path}
use msrpce_dcerpc.Base.{ℕ, zero, suc, ◌+◌, ◌/◌, ◌%◌, Bytes, Array4, IsBytes, length, replicate}
use msrpce_dcerpc.Base.{
  ◌≡◌, refl, ap, sym, arith, Bool, true, false, ◌&&◌, ◌==◌, ltb, lt→ltb, ==→eq, eq→==, Bool-cases,
  if◌then◌else◌,
}
use msrpce_dcerpc.Base.{[], ◌∷◌, ◌++◌, Option, none, some, ◌⊎◌, inl, inr, String, ok}
use msrpce_dcerpc.Base.{u16_to_le_bytes, u32_to_le_bytes}
use msrpce_dcerpc.Crates.{NdrCrate, UuidCrate, ByteOrder, little, big}
use msrpce_dcerpc.Auth.{AuthProvider, AuthLevel, ntlm, win_nt}

abbrev drep : Array4 → String ⊎ ByteOrder
drep (a, b, c, d) =
    if a == 16 then inr little else if a == 0 then inr big else inl "unknown data representation"

instance abbrev pub test_ndr : NdrCrate
test_ndr = record {
  drep_from_bytes = drep;
  windows_default = (16, 0, 0, 0);
  windows_default-IsArray4 = (omega arith, omega arith, omega arith, omega arith);
  windows_default-little = refl;
}

-- Sixteen bytes.
abbrev all_u8 : Bytes → Bool
all_u8 [] = true
all_u8 (b ∷ bs) = ltb b 256 && all_u8 bs

abbrev is_sixteen : Bytes → Bool
is_sixteen b = (length b == 16) && all_u8 b

abbrev pub TestUuid : Type 0
TestUuid = (b : Bytes) × (is_sixteen b ≡ true)

all_u8-IsBytes : (b : Bytes) → all_u8 b ≡ true → IsBytes b
all_u8-IsBytes [] h = tt
all_u8-IsBytes (b ∷ bs) h = ground (arith, all_u8-IsBytes bs)

IsBytes-all_u8 : (b : Bytes) → IsBytes b → all_u8 b ≡ true
IsBytes-all_u8 [] h = refl
IsBytes-all_u8 (b ∷ bs) h = rw (lt→ltb b 256 h.0) (IsBytes-all_u8 bs h.1)

pub is_sixteen_parts : (b : Bytes) → is_sixteen b ≡ true → (length b ≡ 16) × IsBytes b
is_sixteen_parts b h = elim (Bool-cases (length b == 16)) [
  | inl e ↦ (==→eq (length b) 16 e, all_u8-IsBytes b (rw e at h))
  | inr e ↦ absurd (ground arith)
]

pub is_sixteen_lem : (b : Bytes) → length b ≡ 16 → IsBytes b → is_sixteen b ≡ true
is_sixteen_lem b l w = rw (eq→== (length b) 16 l) (IsBytes-all_u8 b w)

uuid_path : (u v : TestUuid) → u.0 ≡ v.0 → u ≡ v
uuid_path u v e = Σ_prop_path (λ (b : Bytes). hlevel) {u = u} {v = v} e

abbrev pub nil_uuid : TestUuid
nil_uuid = (replicate 16 0, refl)

abbrev or_nil : (b : Bytes) → (is_sixteen b ≡ true) ⊎ (is_sixteen b ≡ false) → TestUuid
or_nil b (inl e) = (b, e)
or_nil b (inr e) = nil_uuid

abbrev or_none : (b : Bytes) → (is_sixteen b ≡ true) ⊎ (is_sixteen b ≡ false) → Option TestUuid
or_none b (inl e) = some (b, e)
or_none b (inr e) = none

pub or_nil_lem :
    (u : TestUuid) (s : (is_sixteen u.0 ≡ true) ⊎ (is_sixteen u.0 ≡ false)) → or_nil u.0 s ≡ u
or_nil_lem u (inl e) = uuid_path (u.0, e) u refl
or_nil_lem u (inr e) = absurd (cc u.1)

pub or_nil_bytes :
    (b : Bytes) (s : (is_sixteen b ≡ true) ⊎ (is_sixteen b ≡ false))
    → is_sixteen b ≡ true
    → (or_nil b s).0 ≡ b
or_nil_bytes b (inl e) h = refl
or_nil_bytes b (inr e) h = absurd (cc)

pub or_none_lem :
    (u : TestUuid) (s : (is_sixteen u.0 ≡ true) ⊎ (is_sixteen u.0 ≡ false)) → or_none u.0 s ≡ some u
or_none_lem u (inl e) = ap (λ (v : TestUuid). some v) (uuid_path (u.0, e) u refl)
or_none_lem u (inr e) = absurd (cc u.1)

abbrev bytes_or : Bytes → Option TestUuid → Bytes
bytes_or b none = b
bytes_or b (some u) = u.0

pub or_none_bytes :
    (b : Bytes) (s : (is_sixteen b ≡ true) ⊎ (is_sixteen b ≡ false)) {u : TestUuid}
    → or_none b s ≡ some u
    → u.0 ≡ b
or_none_bytes b (inl e) h = sym (ap (λ (o : Option TestUuid). bytes_or b o) h)
or_none_bytes b (inr e) h = absurd (cc)

abbrev big_endian : ℕ → ℕ → Bytes → Bytes
big_endian zero v tail = tail
big_endian (suc n) v tail = big_endian n (v / 256) (v % 256 ∷ tail)

abbrev uuid_of : Bytes → TestUuid
uuid_of b = or_nil b (Bool-cases (is_sixteen b))

instance abbrev pub test_uuid : UuidCrate TestUuid
test_uuid = record {
  to_bytes_le = λ u. u.0;
  from_bytes_le = uuid_of;
  as_bytes = λ u. u.0;
  from_slice = λ b. or_none b (Bool-cases (is_sixteen b));
  from_u128 = λ v. uuid_of (big_endian 16 v []);
  from_fields =
      λ a b c d. uuid_of (u32_to_le_bytes a ++ (u16_to_le_bytes b ++ (u16_to_le_bytes c ++ d)));
  length-to_bytes_le = λ u. (is_sixteen_parts u.0 u.1).0;
  to_bytes_le-IsBytes = λ u. (is_sixteen_parts u.0 u.1).1;
  from_bytes_le-to_bytes_le = λ u. or_nil_lem u (Bool-cases (is_sixteen u.0));
  to_bytes_le-from_bytes_le =
      λ b l w. or_nil_bytes b (Bool-cases (is_sixteen b)) (is_sixteen_lem b l w);
  length-as_bytes = λ u. (is_sixteen_parts u.0 u.1).0;
  as_bytes-IsBytes = λ u. (is_sixteen_parts u.0 u.1).1;
  from_slice-as_bytes = λ u. or_none_lem u (Bool-cases (is_sixteen u.0));
  as_bytes-from_slice = λ b e. or_none_bytes b (Bool-cases (is_sixteen b)) e;
}

-- A provider with a fixed token, whose state counts its calls.
pub record TestProvider : Type 0 where
  pub level : AuthLevel
  pub calls : ℕ

abbrev pub advance : TestProvider → TestProvider
advance p = record p { calls = p.calls + 1 }

instance abbrev pub test_provider : AuthProvider TestProvider
test_provider = record {
  mechanism = λ p. ntlm;
  auth_level = λ p. p.level;
  init_context = λ target p. (ok (1 ∷ 2 ∷ 3 ∷ []), advance p);
  step = λ token p. (ok (4 ∷ []), advance p);
  auth_type = λ p. win_nt;
  auth_context_id = λ p. 7;
  is_context_established = λ p. true;
}
