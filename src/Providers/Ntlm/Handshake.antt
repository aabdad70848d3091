-- ===== src/Providers/Ntlm/Handshake.antt =====
-- `init_context` and the calls of `step` that follow it, in src/auth.rs, as a handshake.
use msrpce_dcerpc.Base.{
  Bool, ◌≡◌, ◌∙◌, refl, sym, ap, arith, ◌↔◌, Bytes, String, List, [], ◌∷◌, map, Option, none, some,
  Res, ok, err, panic, diverge, ◌⊎◌, inl, inr,
}
use mathlib.Core.Path.{subst}
use msrpce_dcerpc.Base.Text.{Text}
use msrpce_dcerpc.Auth.{RpcAuthError}
use msrpce_dcerpc.Providers.Ntlm.{
  SspiCrate, NtlmRpcAuthProvider, next_token, after_credentials, init_context, step,
}
use msrpce_dcerpc.Providers.Ntlm.Protocol.{Leg, Legs, none_left, next}
use msrpce_dcerpc.Providers.Ntlm.Leg.{ok_pair, Leg-next_token_with, next_token_with-Leg}

-- A call after another one, unless that one failed.
abbrev pub follow :
    {A B S : Type 0}
    → Res RpcAuthError A × S
    → (A → S → Res RpcAuthError B × S)
    → Res RpcAuthError B × S
follow (ok a, s) f = f a s
follow (err e, s) f = (err e, s)
follow (panic, s) f = (panic, s)
follow (diverge, s) f = (diverge, s)

follow_ok :
    {A B S : Type 0} (x : Res RpcAuthError A × S) (f : A → S → Res RpcAuthError B × S) {b : B}
    {r : S}
    → follow x f ≡ (ok b, r)
    → (a : A) × (q : S) × (x ≡ (ok a, q)) × (f a q ≡ (ok b, r))
follow_ok (ok a, q) f h = (a, q, refl, h)
follow_ok {B = B} {S = S} (err e, q) f h = absurd (cc (ap (λ (z : Res RpcAuthError B × S). z.0) h))
follow_ok {B = B} {S = S} (panic, q) f h = absurd (cc (ap (λ (z : Res RpcAuthError B × S). z.0) h))
follow_ok {B = B} {S = S} (diverge, q) f h =
    absurd (cc (ap (λ (z : Res RpcAuthError B × S). z.0) h))

module _ {N U C : Type 0} ⦃s : SspiCrate N U C⦄ where
  -- `step` for each challenge, up to the first error.
  abbrev pub steps :
      List Bytes
      → NtlmRpcAuthProvider N U C
      → Res RpcAuthError (List Bytes) × NtlmRpcAuthProvider N U C
  steps [] p = (ok [], p)
  steps (b ∷ bs) p =
      follow (step b p)
        (λ token p'. follow (steps bs p') (λ tokens p''. (ok (token ∷ tokens), p'')))

  -- `init_context`, and then `step` for each challenge.
  abbrev pub handshake :
      Text
      → List Bytes
      → NtlmRpcAuthProvider N U C
      → Res RpcAuthError (List Bytes) × NtlmRpcAuthProvider N U C
  handshake target challenges p =
      follow (init_context target p)
        (λ token p'. follow (steps challenges p') (λ tokens p''. (ok (token ∷ tokens), p'')))

  -- The provider with a target, in the course of a handshake.
  abbrev pub engaged : NtlmRpcAuthProvider N U C → Text → N → C → Bool → NtlmRpcAuthProvider N U C
  engaged p target n c established = record p {
    client = n;
    credentials_handle = some c;
    target = some target;
    established = established;
  }

  module _ (p : NtlmRpcAuthProvider N U C) (target : Text) where
    -- Legs that lead to `p'`.
    abbrev Ran :
        List (Option Bytes) → N → C → Bool → List Bytes → NtlmRpcAuthProvider N U C → Type 0
    Ran challenges n c e tokens p' =
        (n' : N) × (c' : C) × (e' : Bool) × (p' ≡ engaged p target n' c' e')
        × Legs s target challenges n c e tokens n' c' e'

    -- A leg before those that `rest` stands for.
    one_more :
        {challenge : Option Bytes} {challenges : List (Option Bytes)} {n n1 : N} {c c1 : C}
        {e e1 : Bool} (token : Bytes) {tokens : List Bytes}
        (rest : NtlmRpcAuthProvider N U C
          → Res RpcAuthError (List Bytes) × NtlmRpcAuthProvider N U C)
        (p1 : NtlmRpcAuthProvider N U C) {p' : NtlmRpcAuthProvider N U C}
        → p1 ≡ engaged p target n1 c1 e1
        → Leg s target challenge n c token n1 c1 e1
        → ((ts : List Bytes) (q : NtlmRpcAuthProvider N U C)
            → rest (engaged p target n1 c1 e1) ≡ (ok ts, q)
            → Ran challenges n1 c1 e1 ts q)
        → follow (rest p1) (λ ts q. (ok (token ∷ ts), q)) ≡ (ok tokens, p')
        → Ran (challenge ∷ challenges) n c e tokens p'
    one_more {challenge} {challenges} {n} {n1} {c} {c1} {e} token {tokens} rest p1 same leg k h =
        let (ts, q, more, last) = follow_ok (rest p1) (λ ts q. (ok (token ∷ ts), q)) h in
        let (n2, c2, e2, left, legs) =
          k ts q (subst (λ (x : NtlmRpcAuthProvider N U C). rest x ≡ (ok ts, q)) same more) in
        let (f, g) = ok_pair last in
        (
          n2,
          c2,
          e2,
          g ∙ left,
          subst (λ (xs : List Bytes). Legs s target (challenge ∷ challenges) n c e xs n2 c2 e2) f
              (next leg legs),
        )

    steps-Ran :
        (challenges : List Bytes) (n : N) (c : C) (e : Bool) {tokens : List Bytes}
        {p' : NtlmRpcAuthProvider N U C}
        → steps challenges (engaged p target n c e) ≡ (ok tokens, p')
        → Ran (map (λ (b : Bytes). some b) challenges) n c e tokens p'
    unfolding step next_token
    steps-Ran [] n c e h =
        let (f, g) = ok_pair h in
        (n, c, e, g, subst (λ (ts : List Bytes). Legs s target [] n c e ts n c e) f none_left)
    steps-Ran (b ∷ bs) n c e h =
        let (token, p1, first, more) = follow_ok (step b (engaged p target n c e)) _ h in
        let (n1, c1, e1, same, leg) =
          next_token_with-Leg target (some b) (engaged p target n c e) c first in
        one_more token (steps bs) p1 same leg (λ ts q k. steps-Ran bs n1 c1 e1 k) more

    Legs-steps :
        (challenges : List Bytes) (n : N) (c : C) (e : Bool) {tokens : List Bytes} {n' : N} {c' : C}
        {e' : Bool}
        → Legs s target (map (λ (b : Bytes). some b) challenges) n c e tokens n' c' e'
        → steps challenges (engaged p target n c e) ≡ (ok tokens, engaged p target n' c' e')
    unfolding step next_token
    Legs-steps [] n c e none_left = refl
    Legs-steps (b ∷ bs) n c e (next {n' = n1} {c' = c1} {e' = e1} leg legs) =
        rw
          (
            Leg-next_token_with target (some b) (engaged p target n c e) c leg,
            Legs-steps bs n1 c1 e1 legs,
          )
          refl

    -- `init_context` succeeds where credentials were acquired and the leg without a challenge was made.
    init_context-Leg :
        {token : Bytes} {p' : NtlmRpcAuthProvider N U C}
        → init_context target p ≡ (ok token, p')
        → (c : C) × (n : N) × (n' : N) × (c' : C) × (e' : Bool) × (s.acquire_credentials_handle
              p.username p.password p.client
            ≡ (inr c, n))
          × (p' ≡ engaged p target n' c' e')
          × Leg s target none n c token n' c' e'
    unfolding init_context next_token
    init_context-Leg {token} {p'} h =
        by_credentials (s.acquire_credentials_handle p.username p.password p.client) refl h
      where
        by_credentials :
            (x : (String ⊎ C) × N)
            → s.acquire_credentials_handle p.username p.password p.client ≡ x
            → after_credentials target x p ≡ (ok token, p')
            → (c : C) × (n : N) × (n' : N) × (c' : C) × (e' : Bool) × (s.acquire_credentials_handle
                  p.username p.password p.client
                ≡ (inr c, n))
              × (p' ≡ engaged p target n' c' e')
              × Leg s target none n c token n' c' e'
        by_credentials (inl m, n) e h = absurd (ground arith)
        by_credentials (inr c, n) e h =
            let (n', c', e', same, leg) =
              next_token_with-Leg target none (engaged p target n c p.established) c h in
            (c, n, n', c', e', e, same, leg)

    Leg-init_context :
        {token : Bytes} {c c' : C} {n n' : N} {e' : Bool}
        → s.acquire_credentials_handle p.username p.password p.client ≡ (inr c, n)
        → Leg s target none n c token n' c' e'
        → init_context target p ≡ (ok token, engaged p target n' c' e')
    unfolding init_context next_token
    Leg-init_context {c = c} {n = n} e leg =
        rw e (Leg-next_token_with target none (engaged p target n c p.established) c leg)

  -- What a handshake comes to: the credentials that were acquired and what its legs left.
  pub record Run (p : NtlmRpcAuthProvider N U C) (target : Text) (challenges tokens : List Bytes)
      (p' : NtlmRpcAuthProvider N U C) : Type 0 where
    pub acquired : C
    pub client : N
    pub last_client : N
    pub last_credentials : C
    pub last_established : Bool
    pub acquires :
        s.acquire_credentials_handle p.username p.password p.client ≡ (inr acquired, client)
    pub legs :
        Legs s target
          (none ∷ map (λ (b : Bytes). some b) challenges)
          client
          acquired
          p.established
          tokens
          last_client
          last_credentials
          last_established
    pub leaves : p' ≡ engaged p target last_client last_credentials last_established

  -- A handshake of the NTLM provider, `init_context` for a target and then `step` for each of a number
  -- of challenges, succeeds exactly where it is a run of the crate's protocol: credentials are acquired
  -- for the user name and the password, and in one leg without a challenge and one for each challenge
  -- the crate is asked with the target, the DCE style and the credentials that the leg before left.
  -- Each token is the crate's output, or, where the status is CompleteNeeded or CompleteAndContinue,
  -- what the crate completes it to; and the context is established in the end exactly where the last
  -- status is neither ContinueNeeded nor CompleteAndContinue. The user name, the password, the level
  -- and the context id stay as they were.
  pub handshake-Run :
      (p : NtlmRpcAuthProvider N U C) (target : Text) (challenges tokens : List Bytes)
      (p' : NtlmRpcAuthProvider N U C)
      → (handshake target challenges p ≡ (ok tokens, p')) ↔ Run p target challenges tokens p'
  handshake-Run p target challenges tokens p' = (runs, succeeds)
    where
      runs : handshake target challenges p ≡ (ok tokens, p') → Run p target challenges tokens p'
      runs h =
          let (token, p1, first, more) = follow_ok (init_context target p) _ h in
          let (c, n, n1, c1, e1, acquires, same, leg) = init_context-Leg p target first in
          let (n2, c2, e2, left, legs) =
            one_more p target token (steps challenges) p1 same leg
              (λ ts q k. steps-Ran p target challenges n1 c1 e1 k) more in
          record {
            acquired = c;
            client = n;
            last_client = n2;
            last_credentials = c2;
            last_established = e2;
            acquires = acquires;
            legs = legs;
            leaves = left;
          }

      by_legs :
          (c : C) (n n' : N) (c' : C) (e' : Bool) (ts : List Bytes)
          → s.acquire_credentials_handle p.username p.password p.client ≡ (inr c, n)
          → Legs s target
              (none ∷ map (λ (b : Bytes). some b) challenges)
              n
              c
              p.established
              ts
              n'
              c'
              e'
          → handshake target challenges p ≡ (ok ts, engaged p target n' c' e')
      by_legs c n n' c' e' ts acquires (next {n' = n1} {c' = c1} {e' = e1} leg legs) =
          rw (Leg-init_context p target acquires leg, Legs-steps p target challenges n1 c1 e1 legs)
            refl

      succeeds : Run p target challenges tokens p' → handshake target challenges p ≡ (ok tokens, p')
      succeeds r =
          by_legs r.acquired r.client r.last_client r.last_credentials r.last_established tokens
            r.acquires r.legs
          ∙ ap (λ (q : NtlmRpcAuthProvider N U C). (ok tokens, q)) (sym r.leaves)
