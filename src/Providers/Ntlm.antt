-- ===== src/Providers/Ntlm.antt =====
-- `NtlmRpcAuthProvider` of src/auth.rs, over the crate `sspi`, a parameter of the model.
pub mod Coherent
pub mod Answering
pub mod Protocol
pub mod Leg
pub mod Handshake
use Prim.Native.String.{◌++◌}
use msrpce_dcerpc.Base.{
  ℕ, Bool, true, false, not, ◌||◌, if◌then◌else◌, Bytes, String, Option, none, some, Res, ok, err,
  ◌⊎◌, inl, inr,
}
use msrpce_dcerpc.Base.Text.{Text}
use msrpce_dcerpc.Auth.{
  AuthProvider, RpcAuthError, provider, AuthLevel, connect, AuthMechanism, ntlm, default_auth_type,
}

-- `sspi::SecurityStatus`, as far as the code tells its values apart.
pub data SecurityStatus : Type 0 where
  continue_needed complete_needed complete_and_continue : SecurityStatus
  other_status : ℕ → SecurityStatus

-- What the builder of `initialize_security_context` is given.
pub record InitializeRequest (C : Type 0) : Type 0 where
  pub credentials_handle : C
  pub context_requirements : ℕ
  pub target_name : Text
  pub input : Option Bytes

-- How the call and the resolution of its generator come out; an error is its text.
pub data InitializeOutcome : Type 0 where
  initialize_failed generation_failed : String → InitializeOutcome
  resolved : SecurityStatus → InitializeOutcome

-- With what it leaves in the credentials and in the output buffer.
pub record InitializeReply (C : Type 0) : Type 0 where
  pub outcome : InitializeOutcome
  pub credentials_handle : C
  pub output : Bytes

-- The crate's calls, over the types of its client state, user names and credentials.
pub record SspiCrate (N U C : Type 0) : Type 0 where
  pub new_ntlm : N
  pub new_username : Text → Text → String ⊎ U
  pub use_dce_style : ℕ
  pub acquire_credentials_handle : U → Text → N → (String ⊎ C) × N
  pub initialize_security_context : InitializeRequest C → N → InitializeReply C × N
  pub complete_auth_token : Bytes → N → (String ⊎ Bytes) × N

-- `struct NtlmRpcAuthProvider`; the identity is its user name and its password.
pub record NtlmRpcAuthProvider (N U C : Type 0) : Type 0 where
  pub client : N
  pub username : U
  pub password : Text
  pub credentials_handle : Option C
  pub target : Option Text
  pub auth_level : AuthLevel
  pub auth_context_id : ℕ
  pub established : Bool

-- `matches!(result.status, CompleteAndContinue | CompleteNeeded)`
abbrev pub needs_completion : SecurityStatus → Bool
needs_completion complete_and_continue = true
needs_completion complete_needed = true
needs_completion continue_needed = false
needs_completion (other_status n) = false

-- `matches!(result.status, ContinueNeeded | CompleteAndContinue)`
abbrev pub continues : SecurityStatus → Bool
continues continue_needed = true
continues complete_and_continue = true
continues complete_needed = false
continues (other_status n) = false

abbrev pub no_credentials : RpcAuthError
no_credentials = provider "NTLM credentials are not initialized"

abbrev pub no_target : RpcAuthError
no_target = provider "NTLM target is not initialized"

-- The builder of `next_token`.
abbrev pub initialize_request :
    {N U C : Type 0} → SspiCrate N U C → C → Text → Option Bytes → InitializeRequest C
initialize_request s credentials target input = record {
  credentials_handle = credentials;
  context_requirements = s.use_dce_style;
  target_name = target;
  input = input;
}

module _ {N U C : Type 0} where
  abbrev pub with_auth_level : NtlmRpcAuthProvider N U C → AuthLevel → NtlmRpcAuthProvider N U C
  with_auth_level p level = record p { auth_level = level }

  abbrev pub with_auth_context_id : NtlmRpcAuthProvider N U C → ℕ → NtlmRpcAuthProvider N U C
  with_auth_context_id p id = record p { auth_context_id = id }

  -- The end of `next_token`.
  abbrev pub finish_token :
      SecurityStatus
      → Bytes
      → NtlmRpcAuthProvider N U C
      → Res RpcAuthError Bytes × NtlmRpcAuthProvider N U C
  finish_token status output p = (ok output, record p { established = not (continues status) })

module _ {N U C : Type 0} ⦃s : SspiCrate N U C⦄ where
  -- `NtlmRpcAuthProvider::new`
  unfoldable pub new_provider : Text → Text → Text → Res RpcAuthError (NtlmRpcAuthProvider N U C)
  new_provider domain username password = elim (s.new_username username domain) [
    | inl message ↦ err (provider ("NTLM username setup failed: " ++ message))
    | inr user ↦ ok (record {
      client = s.new_ntlm;
      username = user;
      password = password;
      credentials_handle = none;
      target = none;
      auth_level = connect;
      auth_context_id = 0;
      established = false;
    })
  ]

  -- `complete_auth_token`, where the status asks for it.
  unfoldable pub complete_token :
      SecurityStatus
      → Bytes
      → NtlmRpcAuthProvider N U C
      → Res RpcAuthError Bytes × NtlmRpcAuthProvider N U C
  complete_token status output p =
      let (r, client') = s.complete_auth_token output p.client in
      if needs_completion status
      then elim r [
        | inl message ↦ (
          err (provider ("NTLM complete token failed: " ++ message)),
          record p { client = client' },
        )
        | inr completed ↦ finish_token status completed (record p { client = client' })
      ]
      else finish_token status output p

  -- What `next_token` makes of the crate's reply.
  unfoldable pub take_outcome :
      InitializeOutcome
      → Bytes
      → NtlmRpcAuthProvider N U C
      → Res RpcAuthError Bytes × NtlmRpcAuthProvider N U C
  unfolding complete_token
  take_outcome (initialize_failed message) output p =
      (err (provider ("NTLM initialize failed: " ++ message)), p)
  take_outcome (generation_failed message) output p =
      (err (provider ("NTLM token generation failed: " ++ message)), p)
  take_outcome (resolved status) output p = complete_token status output p

  -- `next_token`, with the credentials and the target that the provider holds.
  unfoldable pub next_token_with :
      Option C
      → Option Text
      → Option Bytes
      → NtlmRpcAuthProvider N U C
      → Res RpcAuthError Bytes × NtlmRpcAuthProvider N U C
  unfolding take_outcome
  next_token_with none target input p = (err no_credentials, p)
  next_token_with (some credentials) none input p = (err no_target, p)
  next_token_with (some credentials) (some target) input p =
      let (reply, client') =
        s.initialize_security_context (initialize_request s credentials target input) p.client in
      take_outcome reply.outcome reply.output
        (record p { client = client'; credentials_handle = some reply.credentials_handle })

  -- `NtlmRpcAuthProvider::next_token`
  unfoldable pub next_token :
      Option Bytes → NtlmRpcAuthProvider N U C → Res RpcAuthError Bytes × NtlmRpcAuthProvider N U C
  unfolding next_token_with
  next_token input p = next_token_with p.credentials_handle p.target input p

  -- `init_context`, once `acquire_credentials_handle` has returned.
  abbrev pub after_credentials :
      Text
      → (String ⊎ C) × N
      → NtlmRpcAuthProvider N U C
      → Res RpcAuthError Bytes × NtlmRpcAuthProvider N U C
  after_credentials target (inl message, client') p = (
    err (provider ("NTLM acquire credentials failed: " ++ message)),
    record p { client = client' },
  )
  after_credentials target (inr credentials, client') p =
      next_token none
        (record p { client = client'; credentials_handle = some credentials; target = some target })

  -- `RpcAuthProvider::init_context`
  unfoldable pub init_context :
      Text → NtlmRpcAuthProvider N U C → Res RpcAuthError Bytes × NtlmRpcAuthProvider N U C
  unfolding next_token
  init_context target p =
      after_credentials target (s.acquire_credentials_handle p.username p.password p.client) p

  -- `RpcAuthProvider::step`
  unfoldable pub step :
      Bytes → NtlmRpcAuthProvider N U C → Res RpcAuthError Bytes × NtlmRpcAuthProvider N U C
  unfolding next_token
  step challenge p = next_token (some challenge) p

  -- `impl RpcAuthProvider for NtlmRpcAuthProvider`
  instance abbrev pub ntlm_auth_provider : AuthProvider (NtlmRpcAuthProvider N U C)
  ntlm_auth_provider = record {
    mechanism = λ p. ntlm;
    auth_level = λ p. p.auth_level;
    init_context = init_context;
    step = step;
    auth_type = λ p. default_auth_type ntlm;
    auth_context_id = λ p. p.auth_context_id;
    is_context_established = λ p. p.established;
  }
