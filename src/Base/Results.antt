-- ===== src/Base/Results.antt =====
-- Rust's `Result`, with the two ways in which a Rust call does not return.
use Prim.Native.Nat.{ℕ, zero, suc, ◌+◌, ◌-◌, ◌≤◌}
use mathlib.Core.Path.{◌≡◌, refl}
use mathlib.Core.Logic.{◌⊎◌, inl, inr}
use mathlib.Core.Bool.{Bool, true, false}
use mathlib.Core.List.{List, [], ◌∷◌, ◌++◌}
use native.Mathlib.Omega.{arith}
use msrpce_dcerpc.Base.Tests.{if◌then◌else◌, leb, le→leb}
use msrpce_dcerpc.Base.Lists.{
  length, take, drop, take_left, take_all, drop_left, length-append, length-drop,
}

-- `panic` is a Rust panic (an index or a slice out of bounds, a failed `expect`); `diverge` says
-- that a loop without a bound of its own has used up the rounds that it was given.
pub data Res {ℓ} (E : Type 0) (A : Type ℓ) : Type ℓ where
  ok : A → Res E A
  err : E → Res E A
  panic diverge : Res E A

abbrev pub ◌>>=◌ {ℓ κ} : {E : Type 0} {A : Type ℓ} {B : Type κ} → Res E A → (A → Res E B) → Res E B
panic >>= next = panic
diverge >>= next = diverge
err failure >>= next = err failure
ok value >>= next = next value

abbrev pub ◌>>◌ {ℓ} : {E : Type 0} {B : Type ℓ} → Res E (Unit {0}) → Res E B → Res E B
check >> rest = check >>= λ done. rest

infixl 5 ◌>>=◌ ◌>>◌
-- `if c { return Err(e) }`
abbrev pub fail_if : {E : Type 0} → Bool → E → Res E (Unit {0})
fail_if true e = err e
fail_if false e = ok tt

-- The call comes back to its caller, with a value or with an error.
abbrev pub Returns {ℓ} : {E : Type 0} {A : Type ℓ} → Res E A → Type 0
Returns (ok a) = Unit {0}
Returns (err e) = Unit {0}
Returns panic = ⊥
Returns diverge = ⊥

-- `bytes[i]`
abbrev pub index {ℓ} : {E : Type 0} {A : Type ℓ} → List A → ℕ → Res E A
index [] i = panic
index (x ∷ xs) zero = ok x
index (x ∷ xs) (suc i) = index xs i

-- The first `n` items, which must be there.
abbrev pub take_exact {ℓ} : {E : Type 0} {A : Type ℓ} → ℕ → List A → Res E (List A)
take_exact zero xs = ok []
take_exact (suc n) [] = panic
take_exact (suc n) (x ∷ xs) = take_exact n xs >>= λ t. ok (x ∷ t)

-- `bytes[lo..]`
unfoldable pub slice_from {ℓ} : {E : Type 0} {A : Type ℓ} → List A → ℕ → Res E (List A)
slice_from xs zero = ok xs
slice_from [] (suc lo) = panic
slice_from (x ∷ xs) (suc lo) = slice_from xs lo

-- `bytes[lo..hi]`
unfoldable pub slice {ℓ} : {E : Type 0} {A : Type ℓ} → List A → ℕ → ℕ → Res E (List A)
unfolding slice_from
slice xs lo hi = if leb lo hi then slice_from xs lo >>= take_exact (hi - lo) else panic

module _ {ℓ} {E : Type 0} {A : Type ℓ} where
  take_exact_lem : (n : ℕ) (xs : List A) → n ≤ length xs → take_exact {E = E} n xs ≡ ok (take n xs)
  take_exact_lem zero xs h = refl
  take_exact_lem (suc n) [] h = absurd (omega arith)
  take_exact_lem (suc n) (x ∷ xs) h = rw (take_exact_lem n xs (omega arith)) refl

  pub slice_from_in :
      (xs : List A) (lo : ℕ) → lo ≤ length xs → slice_from {E = E} xs lo ≡ ok (drop lo xs)
  unfolding slice_from
  slice_from_in xs zero h = refl
  slice_from_in [] (suc lo) h = absurd (omega arith)
  slice_from_in (x ∷ xs) (suc lo) h = slice_from_in xs lo (omega arith)

  pub slice_in :
      (xs : List A) (lo hi : ℕ)
      → lo ≤ hi
      → hi ≤ length xs
      → slice {E = E} xs lo hi ≡ ok (take (hi - lo) (drop lo xs))
  slice_in xs lo hi h k =
      unfold slice in
      rw (le→leb lo hi h, slice_from_in xs lo (omega arith))
        (take_exact_lem (hi - lo) (drop lo xs) (omega (arith, length-drop lo xs)))

  -- The middle one of three parts.
  pub slice_middle :
      (xs ys zs : List A) (lo hi : ℕ)
      → length xs ≡ lo
      → lo + length ys ≡ hi
      → slice {E = E} (xs ++ (ys ++ zs)) lo hi ≡ ok ys
  slice_middle xs ys zs lo hi h k =
      rw
        (
          slice_in (xs ++ (ys ++ zs)) lo hi (omega arith)
              (omega (arith, length-append xs (ys ++ zs), length-append ys zs)),
          drop_left lo xs (ys ++ zs) h,
          take_left (hi - lo) ys zs (omega arith),
        )
        refl

  -- The last one of two parts.
  pub slice_end :
      (xs ys : List A) (lo hi : ℕ)
      → length xs ≡ lo
      → lo + length ys ≡ hi
      → slice {E = E} (xs ++ ys) lo hi ≡ ok ys
  slice_end xs ys lo hi h k =
      rw
        (
          slice_in (xs ++ ys) lo hi (omega arith) (omega (arith, length-append xs ys)),
          drop_left lo xs ys h,
          take_all (hi - lo) ys (omega arith),
        )
        refl

pub >>=-Returns {ℓ κ} :
    {E : Type 0} {A : Type ℓ} {B : Type κ} (m : Res E A) (f : A → Res E B)
    → Returns m
    → ((a : A) → m ≡ ok a → Returns (f a))
    → Returns (m >>= f)
>>=-Returns (ok a) f h k = k a refl
>>=-Returns (err e) f h k = tt
>>=-Returns panic f h k = h
>>=-Returns diverge f h k = h

pub fail_if-Returns : {E : Type 0} (b : Bool) (e : E) → Returns (fail_if b e)
fail_if-Returns true e = tt
fail_if-Returns false e = tt

-- A successful chain had a successful first part.
pub >>=-eq-ok {ℓ κ} :
    {E : Type 0} {A : Type ℓ} {B : Type κ} (start : Res E A) (next : A → Res E B) {end : B}
    → (start >>= next) ≡ ok end
    → (middle : A) × (start ≡ ok middle) × (next middle ≡ ok end)
>>=-eq-ok panic next finished = cc
>>=-eq-ok diverge next finished = cc
>>=-eq-ok (err failure) next finished = cc
>>=-eq-ok (ok value) next finished = (value, refl, finished)

-- To split on how a call returned and keep the equation.
pub Returns-cases {ℓ} :
    {E : Type 0} {A : Type ℓ} (m : Res E A)
    → Returns m
    → ((a : A) × (m ≡ ok a)) ⊎ ((e : E) × (m ≡ err e))
Returns-cases (ok a) h = inl (a, refl)
Returns-cases (err e) h = inr (e, refl)
Returns-cases panic h = absurd h
Returns-cases diverge h = absurd h
