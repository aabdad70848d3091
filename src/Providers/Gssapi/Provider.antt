-- ===== src/Providers/Gssapi/Provider.antt =====
-- `GssapiKerberosRpcAuthProvider` of src/auth.rs, over the state of the GSSAPI library.
use msrpce_dcerpc.Base.{
  Bool, false, if◌then◌else◌, Bytes, [], ◌∷◌, ◌++◌, Option, none, some, Res, ok, err, panic,
  diverge,
}
use msrpce_dcerpc.Base.Text.{Text, contains, split_once}
use msrpce_dcerpc.Auth.{
  AuthProvider, RpcAuthError, provider, AuthLevel, kerberos, connect, default_auth_type,
}
use msrpce_dcerpc.Providers.Gssapi.Library.{GssapiLibrary}
use msrpce_dcerpc.Providers.Gssapi.Context.{
  GssapiClientContext, new_client_context, step_client_context, drop_client_context,
}

-- `struct GssapiKerberosRpcAuthProvider`
pub record GssapiKerberosRpcAuthProvider : Type 0 where
  pub service_principal : Option Text
  pub context : Option GssapiClientContext
  pub auth_level : AuthLevel

-- `GssapiKerberosRpcAuthProvider::new`
abbrev pub new_provider : GssapiKerberosRpcAuthProvider
new_provider = record { service_principal = none; context = none; auth_level = connect }

abbrev pub with_service_principal :
    GssapiKerberosRpcAuthProvider → Text → GssapiKerberosRpcAuthProvider
with_service_principal p service = record p { service_principal = some service }

abbrev pub with_auth_level :
    GssapiKerberosRpcAuthProvider → AuthLevel → GssapiKerberosRpcAuthProvider
with_auth_level p level = record p { auth_level = level }

-- `format!("{service}@{host}")`, or the target where there is no slash.
abbrev pub joined_with_at : Text → Option (Text × Text) → Text
joined_with_at target none = target
joined_with_at target (some (service, host)) = service ++ (b'@' ∷ host)

-- `GssapiKerberosRpcAuthProvider::service_name_for_target`
unfoldable pub service_name_for_target : Text → Text
service_name_for_target target =
    if contains b'@' target then target else joined_with_at target (split_once b'/' target)

-- `self.service_principal.clone().unwrap_or_else(…)`
abbrev pub principal_or : Option Text → Text → Text
principal_or none target = service_name_for_target target
principal_or (some service) target = service

-- `token.unwrap_or_default()` under `map`
abbrev pub token_or_empty : Res RpcAuthError (Option Bytes) → Res RpcAuthError Bytes
token_or_empty (ok none) = ok []
token_or_empty (ok (some token)) = ok token
token_or_empty (err e) = err e
token_or_empty panic = panic
token_or_empty diverge = diverge

abbrev pub context_established : Option GssapiClientContext → Bool
context_established none = false
context_established (some c) = c.established

module _ {G : Type 0} ⦃l : GssapiLibrary G⦄ where
  -- `GssapiKerberosRpcAuthProvider::build_context`
  unfoldable pub build_context :
      Text → GssapiKerberosRpcAuthProvider → G → Res RpcAuthError GssapiClientContext × G
  build_context target p g = new_client_context (principal_or p.service_principal target) g

  -- A context that goes out of scope, where there is one.
  unfoldable pub drop_option : Option GssapiClientContext → G → G
  drop_option none g = g
  drop_option (some c) g = drop_client_context c g

  -- What `init_context` does with the outcome of the first step: the new context takes the place of
  -- the old one, which is dropped, or is dropped itself.
  unfoldable pub install_context :
      Res RpcAuthError (Option Bytes) × GssapiClientContext × G
      → GssapiKerberosRpcAuthProvider
      → Res RpcAuthError Bytes × GssapiKerberosRpcAuthProvider × G
  unfolding drop_option
  install_context (ok (some token), c, g) p =
      (ok token, record p { context = some c }, drop_option p.context g)
  install_context (ok none, c, g) p =
      (err (provider "GSSAPI initial token is empty"), p, drop_client_context c g)
  install_context (err e, c, g) p = (err e, p, drop_client_context c g)
  install_context (panic, c, g) p = (panic, p, drop_client_context c g)
  install_context (diverge, c, g) p = (diverge, p, drop_client_context c g)

  -- `init_context`, once `build_context` has returned.
  unfoldable pub start_context :
      Res RpcAuthError GssapiClientContext × G
      → GssapiKerberosRpcAuthProvider
      → Res RpcAuthError Bytes × GssapiKerberosRpcAuthProvider × G
  unfolding install_context
  start_context (ok c, g) p = install_context (step_client_context none c g) p
  start_context (err e, g) p = (err e, p, g)
  start_context (panic, g) p = (panic, p, g)
  start_context (diverge, g) p = (diverge, p, g)

  -- `RpcAuthProvider::init_context`
  unfoldable pub init_context :
      Text
      → GssapiKerberosRpcAuthProvider
      → G
      → Res RpcAuthError Bytes × GssapiKerberosRpcAuthProvider × G
  unfolding start_context build_context
  init_context target p g = start_context (build_context target p g) p

  -- `RpcAuthProvider::step`, on the context that `init_context` left.
  unfoldable pub step_context :
      Option GssapiClientContext
      → Bytes
      → GssapiKerberosRpcAuthProvider
      → G
      → Res RpcAuthError Bytes × GssapiKerberosRpcAuthProvider × G
  step_context none challenge p g = (err (provider "GSSAPI context is not initialized"), p, g)
  step_context (some c) challenge p g =
      let (r, c', g') = step_client_context (some challenge) c g in
      (token_or_empty r, record p { context = some c' }, g')

  -- `RpcAuthProvider::step`
  unfoldable pub step :
      Bytes
      → GssapiKerberosRpcAuthProvider
      → G
      → Res RpcAuthError Bytes × GssapiKerberosRpcAuthProvider × G
  unfolding step_context
  step challenge p g = step_context p.context challenge p g

  -- The provider goes out of scope.
  unfoldable pub drop_provider : GssapiKerberosRpcAuthProvider → G → G
  unfolding drop_option
  drop_provider p g = drop_option p.context g

  -- `impl RpcAuthProvider for GssapiKerberosRpcAuthProvider`, with the library's state beside it.
  instance abbrev pub gssapi_auth_provider : AuthProvider (GssapiKerberosRpcAuthProvider × G)
  gssapi_auth_provider = record {
    mechanism = λ s. kerberos;
    auth_level = λ s. s.0.auth_level;
    init_context = λ target s. let (r, p, g) = init_context target s.0 s.1 in (r, (p, g));
    step = λ challenge s. let (r, p, g) = step challenge s.0 s.1 in (r, (p, g));
    auth_type = λ s. default_auth_type kerberos;
    auth_context_id = λ s. 0;
    is_context_established = λ s. context_established s.0.context;
  }
