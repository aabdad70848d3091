-- ===== src/Transport/Simulation.antt =====
-- One transport in the place of another: what it takes for a user of a transport not to see which of
-- the two it has.
use msrpce_dcerpc.Base.{Bytes, ok, err, panic, diverge, ◌≡◌, refl, String}
use mathlib.Core.Path.{subst}
use msrpce_dcerpc.Error.{Error, Result}
use msrpce_dcerpc.Transport.{RpcTransport, Action, lift, ◌>>=◌}

-- The same error, but for the text of an error of the transport.
pub data SameError : Error → Error → Type 0 where
  same : {e : Error} → SameError e e
  transports : {m k : String} → SameError (Error.transport m) (Error.transport k)

-- Two calls came to the same, with values that `Q` relates and states that `R` relates.
pub data Agree {A B S S' : Type 0} (Q : A → B → Type 0) (R : S → S' → Type 0)
    : Result A × S → Result B × S' → Type 0 where
  returned : {a : A} {b : B} {s : S} {t : S'} → Q a b → R s t → Agree Q R (ok a, s) (ok b, t)
  failed : {e f : Error} {s : S} {t : S'} → SameError e f → R s t → Agree Q R (err e, s) (err f, t)
  panicked : {s : S} {t : S'} → R s t → Agree Q R (panic, s) (panic, t)
  diverged : {s : S} {t : S'} → R s t → Agree Q R (diverge, s) (diverge, t)

abbrev pub Same : {A : Type 0} → A → A → Type 0
Same a b = a ≡ b

-- What is sent to and received from the two transports agrees, in related states.
pub record Simulates {T T' : Type 0} (R : T → T' → Type 0) (tr : RpcTransport T)
    (tr' : RpcTransport T') : Type 0 where
  pub sends :
      (b : Bytes) (s : T) (t : T') → R s t → Agree Same R (tr.send_pdu b s) (tr'.send_pdu b t)
  pub receives : (s : T) (t : T') → R s t → Agree Same R (tr.recv_pdu s) (tr'.recv_pdu t)

module _ {S S' A B C : Type 0} (R : S → S' → Type 0) (Q : B → C → Type 0) where
  after-Agree :
      {x : Result A × S} {y : Result A × S'} (f : A → Action S B) (g : A → Action S' C)
      → Agree Same R x y
      → ((a : A) (s : S) (t : S') → R s t → Agree Q R (f a s) (g a t))
      → (s0 : S) (t0 : S') → Agree Q R (((λ (z : S). x) >>= f) s0) (((λ (z : S'). y) >>= g) t0)
  after-Agree f g (returned {a} {b} {s} {t} q r) k s0 t0 =
      subst (λ (c : A). Agree Q R (f a s) (g c t)) q (k a s t r)
  after-Agree f g (failed e r) k s0 t0 = failed e r
  after-Agree f g (panicked r) k s0 t0 = panicked r
  after-Agree f g (diverged r) k s0 t0 = diverged r

  -- Chains agree whose parts do.
  pub >>=-Agree :
      (m : Action S A) (m' : Action S' A) (f : A → Action S B) (g : A → Action S' C) (s : S)
      (t : S')
      → Agree Same R (m s) (m' t)
      → ((a : A) (s : S) (t : S') → R s t → Agree Q R (f a s) (g a t))
      → Agree Q R ((m >>= f) s) ((m' >>= g) t)
  >>=-Agree m m' f g s t h k = after-Agree f g h k s t

  -- A pure first part.
  pub lift_then-Agree :
      (r : Result A) (f : A → Action S B) (g : A → Action S' C) (s : S) (t : S')
      → R s t
      → ((a : A) → Agree Q R (f a s) (g a t))
      → Agree Q R ((lift r >>= f) s) ((lift r >>= g) t)
  lift_then-Agree (ok a) f g s t h k = k a
  lift_then-Agree (err e) f g s t h k = failed same h
  lift_then-Agree panic f g s t h k = panicked h
  lift_then-Agree diverge f g s t h k = diverged h

  -- Equal first parts.
  pub lift_then_eq-Agree :
      (r r' : Result A) (f : A → Action S B) (g : A → Action S' C) (s : S) (t : S')
      → r ≡ r'
      → R s t
      → ((a : A) → Agree Q R (f a s) (g a t))
      → Agree Q R ((lift r >>= f) s) ((lift r' >>= g) t)
  lift_then_eq-Agree r r' f g s t e h k =
      subst (λ (q : Result A). Agree Q R ((lift r >>= f) s) ((lift q >>= g) t)) e
        (lift_then-Agree r f g s t h k)

pub lift-Agree :
    {S S' A : Type 0} (R : S → S' → Type 0) (r r' : Result A) (s : S) (t : S')
    → r ≡ r'
    → R s t
    → Agree Same R (lift r s) (lift r' t)
lift-Agree {A = A} R r r' s t e h =
    subst (λ (q : Result A). Agree Same R (lift r s) (lift q t)) e (alike r)
  where
    alike : (r : Result A) → Agree Same R (lift r s) (lift r t)
    alike (ok a) = returned refl h
    alike (err e) = failed same h
    alike panic = panicked h
    alike diverge = diverged h

-- States may be put into larger ones.
pub Agree-map :
    {A B S S' U U' : Type 0} (Q : A → B → Type 0) (R : S → S' → Type 0) (V : U → U' → Type 0)
    (into : S → U) (into' : S' → U') {x : Result A × S} {y : Result B × S'}
    → ((s : S) (t : S') → R s t → V (into s) (into' t))
    → Agree Q R x y
    → Agree Q V (x.0, into x.1) (y.0, into' y.1)
Agree-map Q R V into into' k (returned {s = s} {t = t} q r) = returned q (k s t r)
Agree-map Q R V into into' k (failed {s = s} {t = t} e r) = failed e (k s t r)
Agree-map Q R V into into' k (panicked {s = s} {t = t} r) = panicked (k s t r)
Agree-map Q R V into into' k (diverged {s = s} {t = t} r) = diverged (k s t r)

-- What answers a success.
pub Agree-ok :
    {A B S S' : Type 0} (Q : A → B → Type 0) (R : S → S' → Type 0) {a : A} {s : S}
    {y : Result B × S'}
    → Agree Q R (ok a, s) y
    → (b : B) × (t : S') × (y ≡ (ok b, t)) × Q a b × R s t
Agree-ok Q R (returned {b = b} {t = t} q r) = (b, t, refl, q, r)
