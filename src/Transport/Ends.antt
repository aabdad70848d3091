-- ===== src/Transport/Ends.antt =====
-- Actions that come back to their caller: a postcondition on the state that they leave, and its
-- rules.
use msrpce_dcerpc.Base.{ok, err, panic, diverge, ◌≡◌, refl, Returns}
use msrpce_dcerpc.Error.{Error, Result}
use msrpce_dcerpc.Transport.{Action, lift, ◌>>=◌}

-- The call returned, with a value or an error, and `Q` holds of the state.
pub data Ends {S A : Type 0} (Q : S → Type 0) : Result A × S → Type 0 where
  returned : {a : A} {s : S} → Q s → Ends Q (ok a, s)
  failed : {e : Error} {s : S} → Q s → Ends Q (err e, s)

module _ {S A B : Type 0} (Q R : S → Type 0) where
  after_outcome :
      (r : Result A) (s : S) (f : A → Action S B)
      → Ends Q (r, s)
      → ((a : A) → r ≡ ok a → Q s → Ends R (f a s))
      → (Q s → R s)
      → (s0 : S) → Ends R (((λ (z : S). (r, s)) >>= f) s0)
  after_outcome (ok a) s f (returned h) k w s0 = k a refl h
  after_outcome (err e) s f (failed h) k w s0 = failed (w h)
  after_outcome panic s f h k w s0 = elim h [ ]
  after_outcome diverge s f h k w s0 = elim h [ ]

  -- A chain ends where its first part does and what follows a value does.
  pub >>=-Ends :
      (m : Action S A) (f : A → Action S B) (s : S)
      → Ends Q (m s)
      → ((a : A) → (m s).0 ≡ ok a → Q (m s).1 → Ends R (f a (m s).1))
      → (Q (m s).1 → R (m s).1)
      → Ends R ((m >>= f) s)
  >>=-Ends m f s h k w = after_outcome (m s).0 (m s).1 f h k w s

module _ {S A : Type 0} (Q : S → Type 0) where
  pub lift-Ends : (r : Result A) (s : S) → Returns r → Q s → Ends Q (lift r s)
  lift-Ends (ok a) s h q = returned q
  lift-Ends (err e) s h q = failed q
  lift-Ends panic s h q = absurd h
  lift-Ends diverge s h q = absurd h

  pub Ends-Returns : {x : Result A × S} → Ends Q x → Returns x.0
  Ends-Returns (returned q) = tt
  Ends-Returns (failed q) = tt

  pub Ends-state : {x : Result A × S} → Ends Q x → Q x.1
  Ends-state (returned q) = q
  Ends-state (failed q) = q

module _ {S A B : Type 0} (R : S → Type 0) where
  -- A pure first part.
  pub lift_then-Ends :
      (r : Result A) (f : A → Action S B) (s : S)
      → Returns r
      → R s
      → ((a : A) → r ≡ ok a → Ends R (f a s))
      → Ends R ((lift r >>= f) s)
  lift_then-Ends (ok a) f s h q k = k a refl
  lift_then-Ends (err e) f s h q k = failed q
  lift_then-Ends panic f s h q k = absurd h
  lift_then-Ends diverge f s h q k = absurd h
