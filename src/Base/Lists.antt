-- ===== src/Base/Lists.antt =====
-- Lists measured and cut by native numbers, under the library's names.
use Prim.Native.Nat.{ℕ, zero, suc, ◌+◌, ◌-◌, ◌≤◌, min}
use mathlib.Core.Path.{◌≡◌, refl, sym, ap}
use mathlib.Core.List.{List, [], ◌∷◌, ◌++◌}
use mathlib.Core.Option.{Option, none, some}
use native.Mathlib.Omega.{arith}

module _ {ℓ} {A : Type ℓ} where
  abbrev pub length : List A → ℕ
  length [] = 0
  length (x ∷ xs) = suc (length xs)

  abbrev pub get_elem? : List A → ℕ → Option A
  get_elem? [] i = none
  get_elem? (x ∷ xs) zero = some x
  get_elem? (x ∷ xs) (suc i) = get_elem? xs i

  abbrev pub take : ℕ → List A → List A
  take zero xs = []
  take (suc n) [] = []
  take (suc n) (x ∷ xs) = x ∷ take n xs

  abbrev pub drop : ℕ → List A → List A
  drop zero xs = xs
  drop (suc n) [] = []
  drop (suc n) (x ∷ xs) = drop n xs

  abbrev pub replicate : ℕ → A → List A
  replicate zero a = []
  replicate (suc n) a = a ∷ replicate n a

  -- Every item satisfies `P`; it computes to a tuple.
  abbrev pub All {κ} : (A → Type κ) → List A → Type κ
  All P [] = Unit {κ}
  All P (x ∷ xs) = P x × All P xs

  abbrev pub concat : List (List A) → List A
  concat [] = []
  concat (xs ∷ xss) = xs ++ concat xss

module _ {ℓ} {A : Type ℓ} where
  pub length-append : (xs ys : List A) → length (xs ++ ys) ≡ length xs + length ys
  length-append [] ys = omega arith
  length-append (x ∷ xs) ys = omega (arith, length-append xs ys)

  pub length-replicate : (n : ℕ) (a : A) → length (replicate n a) ≡ n
  length-replicate zero a = refl
  length-replicate (suc n) a = ap suc (length-replicate n a)

  pub length-take : (n : ℕ) (xs : List A) → length (take n xs) ≡ min n (length xs)
  length-take zero xs = omega arith
  length-take (suc n) [] = omega arith
  length-take (suc n) (x ∷ xs) = omega (arith, length-take n xs)

  pub length-drop : (n : ℕ) (xs : List A) → length (drop n xs) ≡ length xs - n
  length-drop zero xs = omega arith
  length-drop (suc n) [] = omega arith
  length-drop (suc n) (x ∷ xs) = omega (arith, length-drop n xs)

  pub take-append-drop : (n : ℕ) (xs : List A) → take n xs ++ drop n xs ≡ xs
  take-append-drop zero xs = refl
  take-append-drop (suc n) [] = refl
  take-append-drop (suc n) (x ∷ xs) = ap (λ t. x ∷ t) (take-append-drop n xs)

  -- A cut at the seam of two lists.
  pub take_left : (n : ℕ) (xs ys : List A) → length xs ≡ n → take n (xs ++ ys) ≡ xs
  take_left zero [] ys h = refl
  take_left zero (x ∷ xs) ys h = absurd (omega arith)
  take_left (suc n) [] ys h = absurd (omega arith)
  take_left (suc n) (x ∷ xs) ys h = ap (λ t. x ∷ t) (take_left n xs ys (omega arith))

  pub drop_left : (n : ℕ) (xs ys : List A) → length xs ≡ n → drop n (xs ++ ys) ≡ ys
  drop_left zero [] ys h = refl
  drop_left zero (x ∷ xs) ys h = absurd (omega arith)
  drop_left (suc n) [] ys h = absurd (omega arith)
  drop_left (suc n) (x ∷ xs) ys h = drop_left n xs ys (omega arith)

  pub take_all : (n : ℕ) (xs : List A) → length xs ≤ n → take n xs ≡ xs
  take_all zero [] h = refl
  take_all zero (x ∷ xs) h = absurd (omega arith)
  take_all (suc n) [] h = refl
  take_all (suc n) (x ∷ xs) h = ap (λ t. x ∷ t) (take_all n xs (omega arith))

  pub All-append {κ} : (P : A → Type κ) (xs ys : List A) → All P xs → All P ys → All P (xs ++ ys)
  All-append P [] ys h k = k
  All-append P (x ∷ xs) ys h k = (h.0, All-append P xs ys h.1 k)

  pub All-take {κ} : (P : A → Type κ) (n : ℕ) (xs : List A) → All P xs → All P (take n xs)
  All-take P zero xs h = tt
  All-take P (suc n) [] h = tt
  All-take P (suc n) (x ∷ xs) h = (h.0, All-take P n xs h.1)

  pub All-drop {κ} : (P : A → Type κ) (n : ℕ) (xs : List A) → All P xs → All P (drop n xs)
  All-drop P zero xs h = h
  All-drop P (suc n) [] h = tt
  All-drop P (suc n) (x ∷ xs) h = All-drop P n xs h.1

module _ {ℓ κ} {A : Type ℓ} (P : List A → Type κ) where
  -- A fact about every list that begins with four items holds of every list that is long enough.
  pub uncons4 :
      ((a b c d : A) (t : List A) → P (a ∷ b ∷ c ∷ d ∷ t)) → (xs : List A) → 4 ≤ length xs → P xs
  uncons4 f (a ∷ b ∷ c ∷ d ∷ t) h = f a b c d t
  uncons4 f (a ∷ b ∷ c ∷ []) h = absurd (omega arith)
  uncons4 f (a ∷ b ∷ []) h = absurd (omega arith)
  uncons4 f (a ∷ []) h = absurd (omega arith)
  uncons4 f [] h = absurd (omega arith)

module _ {ℓ κ} {A : Type ℓ} (P : List A → Type κ) where
  pub uncons8 :
      ((a0 a1 a2 a3 b0 b1 b2 b3 : A) (t : List A) → P (a0 ∷ a1 ∷ a2 ∷ a3 ∷ b0 ∷ b1 ∷ b2 ∷ b3 ∷ t))
      → (xs : List A) → 8 ≤ length xs
      → P xs
  uncons8 f xs h =
      uncons4 (λ ys. 8 ≤ length ys → P ys)
        (λ a0 a1 a2 a3 t k.
          uncons4 (λ ys. P (a0 ∷ a1 ∷ a2 ∷ a3 ∷ ys)) (λ b0 b1 b2 b3 u. f a0 a1 a2 a3 b0 b1 b2 b3 u)
            t (omega arith))
        xs (omega arith) h

module _ {ℓ κ} {A : Type ℓ} (P : List A → Type κ) where
  pub uncons16 :
      ((a0 a1 a2 a3 b0 b1 b2 b3 c0 c1 c2 c3 d0 d1 d2 d3 : A) (t : List A)
        → P (a0 ∷ a1 ∷ a2 ∷ a3 ∷ b0 ∷ b1 ∷ b2 ∷ b3 ∷ c0 ∷ c1 ∷ c2 ∷ c3 ∷ d0 ∷ d1 ∷ d2 ∷ d3 ∷ t))
      → (xs : List A) → 16 ≤ length xs
      → P xs
  uncons16 f xs h =
      uncons8 (λ ys. 16 ≤ length ys → P ys)
        (λ a0 a1 a2 a3 b0 b1 b2 b3 t k.
          uncons8 (λ ys. P (a0 ∷ a1 ∷ a2 ∷ a3 ∷ b0 ∷ b1 ∷ b2 ∷ b3 ∷ ys))
            (λ c0 c1 c2 c3 d0 d1 d2 d3 u. f a0 a1 a2 a3 b0 b1 b2 b3 c0 c1 c2 c3 d0 d1 d2 d3 u) t
            (omega arith))
        xs (omega arith) h

module _ {ℓ} {A : Type ℓ} where
  cut-nil : (k : ℕ) → ◌≡◌ {A = List A} [] (take k [] ++ [])
  cut-nil zero = refl
  cut-nil (suc k) = refl

  -- What stands from `lo` on, cut at `hi`.
  pub drop_cut :
      (xs : List A) (lo hi : ℕ) → lo ≤ hi → drop lo xs ≡ take (hi - lo) (drop lo xs) ++ drop hi xs
  drop_cut xs zero zero h = refl
  drop_cut [] zero (suc hi) h = cut-nil (suc hi - 0)
  drop_cut (x ∷ xs) zero (suc hi) h =
      let e : suc hi - 0 ≡ suc hi = omega arith in
      rw e (ap (λ t. x ∷ t) (sym (take-append-drop hi xs)))
  drop_cut xs (suc lo) zero h = absurd (omega arith)
  drop_cut [] (suc lo) (suc hi) h = cut-nil (suc hi - suc lo)
  drop_cut (x ∷ xs) (suc lo) (suc hi) h =
      let e : suc hi - suc lo ≡ hi - lo = omega arith in rw e (drop_cut xs lo hi (omega arith))

module _ {ℓ} {A : Type ℓ} where
  pub get_elem?-lt : (xs : List A) (i : ℕ) {x : A} → get_elem? xs i ≡ some x → suc i ≤ length xs
  get_elem?-lt [] i e = cc
  get_elem?-lt (x ∷ xs) zero e = omega arith
  get_elem?-lt (x ∷ xs) (suc i) e = omega (arith, get_elem?-lt xs i e)

  pub get_elem?_in : (xs : List A) (i : ℕ) → suc i ≤ length xs → (x : A) × (get_elem? xs i ≡ some x)
  get_elem?_in [] i h = absurd (omega arith)
  get_elem?_in (x ∷ xs) zero h = (x, refl)
  get_elem?_in (x ∷ xs) (suc i) h = get_elem?_in xs i (omega arith)

  pub get_elem?-append :
      (xs : List A) (x : A) (ys : List A) (i : ℕ)
      → length xs ≡ i
      → get_elem? (xs ++ (x ∷ ys)) i ≡ some x
  get_elem?-append [] x ys zero h = refl
  get_elem?-append [] x ys (suc i) h = absurd (omega arith)
  get_elem?-append (z ∷ xs) x ys zero h = absurd (omega arith)
  get_elem?-append (z ∷ xs) x ys (suc i) h = get_elem?-append xs x ys i (omega arith)

  drop-nil : (n : ℕ) → ◌≡◌ {A = List A} (drop n []) []
  drop-nil zero = refl
  drop-nil (suc n) = refl

  -- Two cuts are one.
  pub drop-drop : (m n : ℕ) (xs : List A) → drop n (drop m xs) ≡ drop (m + n) xs
  drop-drop zero n xs = let e : 0 + n ≡ n = omega arith in rw e refl
  drop-drop (suc m) n [] = let e : suc m + n ≡ suc (m + n) = omega arith in rw e (drop-nil n)
  drop-drop (suc m) n (x ∷ xs) =
      let e : suc m + n ≡ suc (m + n) = omega arith in rw e (drop-drop m n xs)
