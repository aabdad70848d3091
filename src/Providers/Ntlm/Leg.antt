-- ===== src/Providers/Ntlm/Leg.antt =====
-- `next_token` of src/auth.rs is a leg of a handshake.
use msrpce_dcerpc.Base.{
  Bool, true, false, ◌≡◌, refl, sym, ap, not, arith, Bytes, String, Option, some, Res, ok, ◌⊎◌, inl,
  inr,
}
use mathlib.Core.Path.{subst}
use msrpce_dcerpc.Base.Text.{Text}
use msrpce_dcerpc.Auth.{RpcAuthError}
use msrpce_dcerpc.Providers.Ntlm.{
  SspiCrate, SecurityStatus, continue_needed, complete_needed, complete_and_continue, other_status,
  initialize_request, InitializeOutcome, initialize_failed, generation_failed, resolved,
  NtlmRpcAuthProvider, complete_token, take_outcome, next_token_with, needs_completion, continues,
}
use msrpce_dcerpc.Providers.Ntlm.Protocol.{
  Leg, continued, completed_and_continued, completed, finished,
}

pub ok_pair :
    {A S : Type 0} {x y : A} {q r : S}
    → Path (Res RpcAuthError A × S) (ok x, q) (ok y, r)
    → (x ≡ y) × (r ≡ q)
ok_pair {A} {S} h = (
  cc (ap (λ (z : Res RpcAuthError A × S). z.0) h),
  ap (λ (z : Res RpcAuthError A × S). z.1) (sym h),
)

module _ {N U C : Type 0} ⦃s : SspiCrate N U C⦄ where
  -- A completion that went well.
  completion :
      (status : SecurityStatus) (output : Bytes) (p : NtlmRpcAuthProvider N U C) {token : Bytes}
      {p' : NtlmRpcAuthProvider N U C}
      → needs_completion status ≡ true
      → complete_token status output p ≡ (ok token, p')
      → (n' : N) × (s.complete_auth_token output p.client ≡ (inr token, n'))
        × (p' ≡ record p { client = n'; established = not (continues status) })
  unfolding complete_token
  completion status output p {token} {p'} asked h =
      by_answer (s.complete_auth_token output p.client) refl
    where
      by_answer :
          (x : (String ⊎ Bytes) × N)
          → s.complete_auth_token output p.client ≡ x
          → (n' : N) × (x ≡ (inr token, n'))
            × (p' ≡ record p { client = n'; established = not (continues status) })
      by_answer (inl m, n') e = absurd (ground arith)
      by_answer (inr t, n') e =
          let same : Path (Res RpcAuthError Bytes × NtlmRpcAuthProvider N U C)
              (ok t, record p { client = n'; established = not (continues status) })
              (ok token, p') =
            ground (arith, h) in
          let (f, g) = ok_pair same in (n', ap (λ (b : Bytes). (inr b, n')) f, g)

  module _ (target : Text) (challenge : Option Bytes) (p : NtlmRpcAuthProvider N U C) (c : C) where
    -- `p` after a leg.
    abbrev after_leg : N → C → Bool → NtlmRpcAuthProvider N U C
    after_leg n' c' e = record p { client = n'; credentials_handle = some c'; established = e }

    take_outcome-Leg :
        (o : InitializeOutcome) (c' : C) (output : Bytes) (n' : N) {token : Bytes}
        {p' : NtlmRpcAuthProvider N U C}
        → s.initialize_security_context (initialize_request s c target challenge) p.client
          ≡ (record { outcome = o; credentials_handle = c'; output = output }, n')
        → take_outcome o output (record p { client = n'; credentials_handle = some c' })
          ≡ (ok token, p')
        → (n2 : N) × (c2 : C) × (e : Bool) × (p' ≡ after_leg n2 c2 e)
          × Leg s target challenge p.client c token n2 c2 e
    unfolding take_outcome complete_token
    take_outcome-Leg (initialize_failed m) c' output n' a h = absurd (ground arith)
    take_outcome-Leg (generation_failed m) c' output n' a h = absurd (ground arith)
    take_outcome-Leg (resolved continue_needed) c' output n' a h =
        let (f, g) = ok_pair h in
        (
          n',
          c',
          false,
          g,
          subst (λ (b : Bytes). Leg s target challenge p.client c b n' c' false) f (continued a),
        )
    take_outcome-Leg (resolved complete_needed) c' output n' a h =
        let (n2, done, g) =
          completion complete_needed output (record p { client = n'; credentials_handle = some c' })
            refl h in
        (n2, c', true, g, completed a done)
    take_outcome-Leg (resolved complete_and_continue) c' output n' a h =
        let (n2, done, g) =
          completion complete_and_continue output
            (record p { client = n'; credentials_handle = some c' }) refl h in
        (n2, c', false, g, completed_and_continued a done)
    take_outcome-Leg (resolved (other_status k)) c' output n' a h =
        let (f, g) = ok_pair h in
        (
          n',
          c',
          true,
          g,
          subst (λ (b : Bytes). Leg s target challenge p.client c b n' c' true) f (finished k a),
        )

    -- A leg is what `next_token` does with credentials and a target.
    pub Leg-next_token_with :
        {token : Bytes} {n' : N} {c' : C} {e : Bool}
        → Leg s target challenge p.client c token n' c' e
        → next_token_with (some c) (some target) challenge p ≡ (ok token, after_leg n' c' e)
    unfolding next_token_with take_outcome complete_token
    Leg-next_token_with (continued a) = rw a refl
    Leg-next_token_with (completed_and_continued a d) =
        rw (a, d, ap (λ (x : (String ⊎ Bytes) × N). x.1) d) refl
    Leg-next_token_with (completed a d) = rw (a, d, ap (λ (x : (String ⊎ Bytes) × N). x.1) d) refl
    Leg-next_token_with (finished k a) = rw a refl

    pub next_token_with-Leg :
        {token : Bytes} {p' : NtlmRpcAuthProvider N U C}
        → next_token_with (some c) (some target) challenge p ≡ (ok token, p')
        → (n' : N) × (c' : C) × (e : Bool) × (p' ≡ after_leg n' c' e)
          × Leg s target challenge p.client c token n' c' e
    unfolding next_token_with
    next_token_with-Leg h =
        let (reply, n') =
          s.initialize_security_context (initialize_request s c target challenge) p.client in
        take_outcome-Leg reply.outcome reply.credentials_handle reply.output n' refl h
