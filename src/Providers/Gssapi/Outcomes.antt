-- ===== src/Providers/Gssapi/Outcomes.antt =====
-- How the calls of the GSSAPI provider come out.
use msrpce_dcerpc.Base.{
  ◌==◌, ◌≡◌, ◌≢◌, refl, arith, [], ◌∷◌, Bool-cases, inl, inr, not, ◌&&◌, Bytes, Option, none, some,
  Res, ok, err, panic, diverge, Returns,
}
use msrpce_dcerpc.Base.Text.{Text}
use msrpce_dcerpc.Auth.{RpcAuthError}
use msrpce_dcerpc.Auth.Answering.{IsAnswering}
use msrpce_dcerpc.Providers.Gssapi.Library.{GssapiLibrary, InitReply}
use msrpce_dcerpc.Providers.Gssapi.Context.{
  GssapiClientContext, import_gssapi_service_name, acquire_gssapi_credentials,
  context_with_credentials, context_for_name, new_client_context, some_token, init_request,
  take_reply, step_client_context,
}
use msrpce_dcerpc.Providers.Gssapi.Provider.{
  GssapiKerberosRpcAuthProvider, principal_or, build_context, install_context, start_context,
  init_context, step_context, step, token_or_empty, gssapi_auth_provider,
}

module _ {G : Type 0} ⦃l : GssapiLibrary G⦄ where
  -- A step of a context returns, and a token that it returns is not empty.
  abbrev StepOutcome : Res RpcAuthError (Option Bytes) × GssapiClientContext × G → Type 0
  StepOutcome (ok none, c, g) = Unit {0}
  StepOutcome (ok (some token), c, g) = token ≢ []
  StepOutcome (err e, c, g) = Unit {0}
  StepOutcome (panic, c, g) = ⊥
  StepOutcome (diverge, c, g) = ⊥

  some_token-StepOutcome :
      (bytes : Bytes) (c : GssapiClientContext) (g : G) → StepOutcome (ok (some_token bytes), c, g)
  some_token-StepOutcome [] c g = tt
  some_token-StepOutcome (b ∷ bs) c g = λ e. cc e

  take_reply-StepOutcome :
      (reply : InitReply) (c : GssapiClientContext) (g : G) → StepOutcome (take_reply reply c g)
  unfolding take_reply
  take_reply-StepOutcome reply c g =
      elim (Bool-cases
        (not (reply.major == l.gss_s_complete) && not (reply.major == l.gss_s_continue_needed))) [
          | inl t ↦ rw t tt
          | inr t ↦ rw t (some_token-StepOutcome _ _ _)
        ]

  step_client_context-StepOutcome :
      (input : Option Bytes) (c : GssapiClientContext) (g : G)
      → StepOutcome (step_client_context input c g)
  unfolding step_client_context
  step_client_context-StepOutcome input c g =
      let (reply, g') = l.init_sec_context (init_request l input c) g in
      take_reply-StepOutcome reply (record c { context = reply.context }) g'

  new_client_context-Returns : (s : Text) (g : G) → Returns (new_client_context s g).0
  unfolding new_client_context context_for_name import_gssapi_service_name context_with_credentials
      acquire_gssapi_credentials
  new_client_context-Returns s g = ground arith

  -- What `init_context` returns, beside the provider that it leaves.
  abbrev pub InitOutcome :
      GssapiKerberosRpcAuthProvider
      → Res RpcAuthError Bytes × GssapiKerberosRpcAuthProvider × G
      → Type 0
  InitOutcome p (ok token, p', g) =
      (c : GssapiClientContext) × (p' ≡ record p { context = some c }) × (token ≢ [])
  InitOutcome p (err e, p', g) = p' ≡ p
  InitOutcome p (panic, p', g) = ⊥
  InitOutcome p (diverge, p', g) = ⊥

  install_context-InitOutcome :
      (m : Res RpcAuthError (Option Bytes) × GssapiClientContext × G)
      (p : GssapiKerberosRpcAuthProvider)
      → StepOutcome m
      → InitOutcome p (install_context m p)
  unfolding install_context
  install_context-InitOutcome (ok (some token), c, g) p h = (c, refl, h)
  install_context-InitOutcome (ok none, c, g) p h = refl
  install_context-InitOutcome (err e, c, g) p h = refl
  install_context-InitOutcome (panic, c, g) p h = absurd h
  install_context-InitOutcome (diverge, c, g) p h = absurd h

  start_context-InitOutcome :
      (m : Res RpcAuthError GssapiClientContext × G) (p : GssapiKerberosRpcAuthProvider)
      → Returns m.0
      → InitOutcome p (start_context m p)
  unfolding start_context
  start_context-InitOutcome (ok c, g) p h =
      install_context-InitOutcome (step_client_context none c g) p
        (step_client_context-StepOutcome none c g)
  start_context-InitOutcome (err e, g) p h = refl
  start_context-InitOutcome (panic, g) p h = absurd h
  start_context-InitOutcome (diverge, g) p h = absurd h

  -- `init_context` of the GSSAPI provider always returns: a token that is not empty, with the
  -- provider changed in its context alone, or an error, with the provider as it was.
  pub init_context-InitOutcome :
      (target : Text) (p : GssapiKerberosRpcAuthProvider) (g : G)
      → InitOutcome p (init_context target p g)
  unfolding init_context build_context
  init_context-InitOutcome target p g =
      start_context-InitOutcome (new_client_context (principal_or p.service_principal target) g) p
        (new_client_context-Returns (principal_or p.service_principal target) g)

  init_context-Returns :
      (target : Text) (p : GssapiKerberosRpcAuthProvider) (g : G)
      → Returns (init_context target p g).0
  init_context-Returns target p g =
      returns_of p (init_context target p g) (init_context-InitOutcome target p g)
    where
      returns_of :
          (p : GssapiKerberosRpcAuthProvider)
          (x : Res RpcAuthError Bytes × GssapiKerberosRpcAuthProvider × G)
          → InitOutcome p x
          → Returns x.0
      returns_of p (ok token, p', g') h = tt
      returns_of p (err e, p', g') h = tt
      returns_of p (panic, p', g') h = h
      returns_of p (diverge, p', g') h = h

  token_or_empty-Returns :
      (m : Res RpcAuthError (Option Bytes) × GssapiClientContext × G)
      → StepOutcome m
      → Returns (token_or_empty m.0)
  token_or_empty-Returns (ok none, c, g) h = tt
  token_or_empty-Returns (ok (some token), c, g) h = tt
  token_or_empty-Returns (err e, c, g) h = tt
  token_or_empty-Returns (panic, c, g) h = h
  token_or_empty-Returns (diverge, c, g) h = h

  step_context-Returns :
      (held : Option GssapiClientContext) (challenge : Bytes) (p : GssapiKerberosRpcAuthProvider)
      (g : G)
      → Returns (step_context held challenge p g).0
  unfolding step_context
  step_context-Returns none challenge p g = tt
  step_context-Returns (some c) challenge p g =
      token_or_empty-Returns (step_client_context (some challenge) c g)
        (step_client_context-StepOutcome (some challenge) c g)

  -- The calls of the GSSAPI provider return.
  pub gssapi-IsAnswering : IsAnswering (gssapi_auth_provider {G = G})
  unfolding step
  gssapi-IsAnswering = record {
    init_returns = λ target s. init_context-Returns target s.0 s.1;
    step_returns = λ challenge s. step_context-Returns s.0.context challenge s.0 s.1;
  }
