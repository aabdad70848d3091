-- ===== src/Providers/Gssapi/Context.antt =====
-- `struct GssapiClientContext` of src/auth.rs and the helpers that it calls the library through.
use Prim.Native.String.{◌++◌}
use msrpce_dcerpc.Base.{
  ℕ, Bool, false, not, ◌&&◌, ◌||◌, ◌==◌, if◌then◌else◌, Bytes, String, [], ◌∷◌, Option, none, some,
  Res, ok, err, panic, diverge, bit_or,
}
use msrpce_dcerpc.Base.Text.{Text, hex_u32}
use msrpce_dcerpc.Auth.{RpcAuthError, provider}
use msrpce_dcerpc.Providers.Gssapi.Library.{GssapiLibrary, BufferDesc, InitRequest, InitReply}

-- `struct GssapiClientContext`; a null pointer is 0.
pub record GssapiClientContext : Type 0 where
  pub credential : ℕ
  pub name : ℕ
  pub context : ℕ
  pub established : Bool

-- `b"\x2a\x86\x48\x86\xf7\x12\x01\x02\x02"` of `kerberos_mech_oid`
abbrev pub kerberos_mech_oid : Bytes
kerberos_mech_oid = 0x2a ∷ 0x86 ∷ 0x48 ∷ 0x86 ∷ 0xf7 ∷ 0x12 ∷ 0x01 ∷ 0x02 ∷ 0x02 ∷ []

-- `{what}: major=0x{major:08X} minor=0x{minor:08X}`
abbrev pub status_error : String → ℕ → ℕ → RpcAuthError
status_error what major minor =
    provider (what ++ (": major=0x" ++ (hex_u32 major ++ (" minor=0x" ++ hex_u32 minor))))

-- `(!token.is_empty()).then_some(token)`
abbrev pub some_token : Bytes → Option Bytes
some_token [] = none
some_token (b ∷ bs) = some (b ∷ bs)

-- `GssapiClientContext::request_flags`
abbrev pub request_flags : {G : Type 0} → GssapiLibrary G → ℕ
request_flags l = bit_or (bit_or l.gss_c_mutual_flag l.gss_c_integ_flag) l.gss_c_dce_style

-- The arguments of `gss_init_sec_context` that `GssapiClientContext::step` gives.
abbrev pub init_request :
    {G : Type 0} → GssapiLibrary G → Option Bytes → GssapiClientContext → InitRequest
init_request l input c = record {
  credential = c.credential;
  context = c.context;
  name = c.name;
  mech = kerberos_mech_oid;
  flags = request_flags l;
  input = input;
}

module _ {G : Type 0} ⦃l : GssapiLibrary G⦄ where
  -- `import_gssapi_service_name`
  unfoldable pub import_gssapi_service_name : Text → G → Res RpcAuthError ℕ × G
  import_gssapi_service_name service_name g =
      let (reply, g') = l.import_name service_name g in
      if reply.major == l.gss_s_complete
      then (ok reply.handle, g')
      else (err (status_error "GSSAPI import service name failed" reply.major reply.minor), g')

  -- `acquire_gssapi_credentials`
  unfoldable pub acquire_gssapi_credentials : G → Res RpcAuthError ℕ × G
  acquire_gssapi_credentials g =
      let (reply, g') = l.acquire_cred g in
      if reply.major == l.gss_s_complete then (ok reply.handle, g') else (
        err (status_error "GSSAPI acquire default credentials failed" reply.major reply.minor),
        g',
      )

  -- `release_gssapi_name`
  unfoldable pub release_gssapi_name : ℕ → G → G
  release_gssapi_name name g = if not (name == 0) then l.release_name name g else g

  -- `copy_gssapi_buffer`
  unfoldable pub copy_gssapi_buffer : BufferDesc → G → Bytes
  copy_gssapi_buffer buffer g =
      if (buffer.value == 0) || (buffer.length == 0)
      then []
      else l.bytes_at buffer.value buffer.length g

  -- `release_gssapi_buffer`
  unfoldable pub release_gssapi_buffer : BufferDesc → G → G
  release_gssapi_buffer buffer g =
      if not (buffer.value == 0) then l.release_buffer buffer.value g else g

  -- `match acquire_gssapi_credentials()` of `GssapiClientContext::new`
  unfoldable pub context_with_credentials :
      ℕ → Res RpcAuthError ℕ × G → Res RpcAuthError GssapiClientContext × G
  context_with_credentials name (ok credential, g) =
      (ok (record { credential = credential; name = name; context = 0; established = false }), g)
  context_with_credentials name (err e, g) = (err e, release_gssapi_name name g)
  context_with_credentials name (panic, g) = (panic, g)
  context_with_credentials name (diverge, g) = (diverge, g)

  -- What `new` does once the name is there.
  unfoldable pub context_for_name :
      Res RpcAuthError ℕ × G → Res RpcAuthError GssapiClientContext × G
  unfolding context_with_credentials
  context_for_name (ok name, g) = context_with_credentials name (acquire_gssapi_credentials g)
  context_for_name (err e, g) = (err e, g)
  context_for_name (panic, g) = (panic, g)
  context_for_name (diverge, g) = (diverge, g)

  -- `GssapiClientContext::new`
  unfoldable pub new_client_context : Text → G → Res RpcAuthError GssapiClientContext × G
  unfolding context_for_name
  new_client_context service_name g = context_for_name (import_gssapi_service_name service_name g)

  -- What `GssapiClientContext::step` makes of the library's reply; the library has written the
  -- context handle by then.
  unfoldable pub take_reply :
      InitReply
      → GssapiClientContext
      → G
      → Res RpcAuthError (Option Bytes) × GssapiClientContext × G
  take_reply reply c g =
      if not (reply.major == l.gss_s_complete) && not (reply.major == l.gss_s_continue_needed)
      then (
        err (status_error "GSSAPI init security context failed" reply.major reply.minor),
        c,
        release_gssapi_buffer reply.output g,
      )
      else (
        ok (some_token (copy_gssapi_buffer reply.output g)),
        record c { established = reply.major == l.gss_s_complete },
        release_gssapi_buffer reply.output g,
      )

  -- `GssapiClientContext::step`
  unfoldable pub step_client_context :
      Option Bytes
      → GssapiClientContext
      → G
      → Res RpcAuthError (Option Bytes) × GssapiClientContext × G
  unfolding take_reply
  step_client_context input c g =
      let (reply, g') = l.init_sec_context (init_request l input c) g in
      take_reply reply (record c { context = reply.context }) g'

  -- `Drop for GssapiClientContext`
  unfoldable pub drop_client_context : GssapiClientContext → G → G
  unfolding release_gssapi_name
  drop_client_context c g =
      let g1 = if not (c.context == 0) then l.delete_sec_context c.context g else g in
      let g2 = if not (c.credential == 0) then l.release_cred c.credential g1 else g1 in
      release_gssapi_name c.name g2
