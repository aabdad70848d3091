-- ===== src/Transport.antt =====
-- src/transport.rs: the transport boundary, and actions on a state that can fail.
pub mod Ends
pub mod Finite
pub mod Simulation
use msrpce_dcerpc.Base.{Bytes, ok, err, panic, diverge, ◌≡◌, refl, ap}
use msrpce_dcerpc.Error.{Result}

-- `trait RpcTransport`, over the type of the transport's state. A failed call may change the state.
pub record RpcTransport (T : Type 0) : Type 0 where
  pub send_pdu : Bytes → T → Result (Unit {0}) × T
  pub recv_pdu : T → Result Bytes × T

-- A method with `&mut self`: the state comes back also after an error.
abbrev pub Action : Type 0 → Type 0 → Type 0
Action S A = S → Result A × S

abbrev pub lift : {S A : Type 0} → Result A → Action S A
lift r s = (r, s)

infixl 5 ◌>>=◌ ◌>>◌
abbrev pub ◌>>=◌ : {S A B : Type 0} → Action S A → (A → Action S B) → Action S B
◌>>=◌ m f s =
    let (r, s') = m s in
    elim r [ ok a ↦ f a s' | err e ↦ (err e, s') | panic ↦ (panic, s') | diverge ↦ (diverge, s') ]

abbrev pub ◌>>◌ : {S B : Type 0} → Action S (Unit {0}) → Action S B → Action S B
first >> rest = first >>= λ done. rest

-- A successful chain had a successful first part.
pub >>=-eq-ok :
    {S A B : Type 0} (m : Action S A) (f : A → Action S B) (s : S) {b : B} {t : S}
    → (m >>= f) s ≡ (ok b, t)
    → (a : A) × (s' : S) × (m s ≡ (ok a, s')) × (f a s' ≡ (ok b, t))
>>=-eq-ok {S} {A} {B} m f s {b} {t} h = by_outcome (m s) refl h
  where
    by_outcome :
        (x : Result A × S)
        → m s ≡ x
        → ((λ (z : S). x) >>= f) s ≡ (ok b, t)
        → (a : A) × (s' : S) × (m s ≡ (ok a, s')) × (f a s' ≡ (ok b, t))
    by_outcome (ok a, s') e k = (a, s', e, k)
    by_outcome (err x, s') e k = absurd (cc (ap (λ (p : Result B × S). p.0) k))
    by_outcome (panic, s') e k = absurd (cc (ap (λ (p : Result B × S). p.0) k))
    by_outcome (diverge, s') e k = absurd (cc (ap (λ (p : Result B × S). p.0) k))

pub lift-eq-ok :
    {S A B : Type 0} (m : Result A) (f : A → Action S B) (s : S) {b : B} {t : S}
    → (lift m >>= f) s ≡ (ok b, t)
    → (a : A) × (m ≡ ok a) × (f a s ≡ (ok b, t))
lift-eq-ok (ok a) f s h = (a, refl, h)
lift-eq-ok {B = B} (err x) f s h = absurd (cc (ap (λ (p : Result B × _). p.0) h))
lift-eq-ok {B = B} panic f s h = absurd (cc (ap (λ (p : Result B × _). p.0) h))
lift-eq-ok {B = B} diverge f s h = absurd (cc (ap (λ (p : Result B × _). p.0) h))
