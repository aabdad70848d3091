-- ===== src/Providers/Ntlm/Answering.antt =====
-- The calls of the NTLM provider come back to their caller.
use msrpce_dcerpc.Base.{arith, Returns, Bytes, String, Option, none, some, ◌⊎◌, inl, inr}
use msrpce_dcerpc.Base.Text.{Text}
use msrpce_dcerpc.Auth.Answering.{IsAnswering}
use msrpce_dcerpc.Providers.Ntlm.{
  SspiCrate, SecurityStatus, initialize_request, InitializeOutcome, initialize_failed,
  generation_failed, resolved, NtlmRpcAuthProvider, complete_token, take_outcome, next_token_with,
  next_token, after_credentials, init_context, step, ntlm_auth_provider,
}

module _ {N U C : Type 0} ⦃s : SspiCrate N U C⦄ where
  complete_token-Returns :
      (status : SecurityStatus) (output : Bytes) (p : NtlmRpcAuthProvider N U C)
      → Returns (complete_token status output p).0
  unfolding complete_token
  complete_token-Returns status output p = ground arith

  take_outcome-Returns :
      (o : InitializeOutcome) (output : Bytes) (p : NtlmRpcAuthProvider N U C)
      → Returns (take_outcome o output p).0
  unfolding take_outcome
  take_outcome-Returns (initialize_failed m) output p = tt
  take_outcome-Returns (generation_failed m) output p = tt
  take_outcome-Returns (resolved status) output p = complete_token-Returns status output p

  next_token_with-Returns :
      (held : Option C) (target : Option Text) (input : Option Bytes)
      (p : NtlmRpcAuthProvider N U C)
      → Returns (next_token_with held target input p).0
  unfolding next_token_with
  next_token_with-Returns none target input p = tt
  next_token_with-Returns (some c) none input p = tt
  next_token_with-Returns (some c) (some t) input p =
      let (reply, client') =
        s.initialize_security_context (initialize_request s c t input) p.client in
      take_outcome-Returns reply.outcome reply.output
        (record p { client = client'; credentials_handle = some reply.credentials_handle })

  after_credentials-Returns :
      (target : Text) (x : (String ⊎ C) × N) (p : NtlmRpcAuthProvider N U C)
      → Returns (after_credentials target x p).0
  unfolding next_token
  after_credentials-Returns target (inl message, client') p = tt
  after_credentials-Returns target (inr c, client') p =
      next_token_with-Returns (some c) (some target) none
        (record p { client = client'; credentials_handle = some c; target = some target })

  -- The calls of the NTLM provider return.
  pub ntlm-IsAnswering : IsAnswering (ntlm_auth_provider {N = N} {U = U} {C = C})
  unfolding init_context step next_token
  ntlm-IsAnswering = record {
    init_returns = λ target p.
        after_credentials-Returns target
          (s.acquire_credentials_handle p.username p.password p.client) p;
    step_returns =
        λ challenge p. next_token_with-Returns p.credentials_handle p.target (some challenge) p;
  }
