-- ===== src/Tests/Ntlm.antt =====
-- The NTLM provider over a concrete crate: the first call asks for a challenge, the second ends by
-- a completion.
use msrpce_dcerpc.Base.{
  ℕ, true, false, ◌≡◌, ◌↔◌, refl, List, [], ◌∷◌, ◌++◌, Bytes, Option, none, some, ok, inr, suc,
}
use msrpce_dcerpc.Base.Text.{Text, codes}
use msrpce_dcerpc.Auth.{connect}
use msrpce_dcerpc.Providers.Calls.{ProviderCall, init_call, step_call}
use msrpce_dcerpc.Providers.Ntlm.{
  SspiCrate, InitializeRequest, InitializeReply, SecurityStatus, continue_needed, complete_needed,
  resolved, NtlmRpcAuthProvider, init_context, step, new_provider, next_token, complete_token,
  take_outcome, next_token_with,
}
use msrpce_dcerpc.Providers.Ntlm.Coherent.{IsCoherent, perform_all, perform_all-IsCoherent}
use msrpce_dcerpc.Providers.Ntlm.Handshake.{handshake, Run, handshake-Run}

abbrev toy_status : Option Bytes → SecurityStatus
toy_status none = continue_needed
toy_status (some challenge) = complete_needed

abbrev toy_initialize : InitializeRequest ℕ → ℕ → InitializeReply ℕ × ℕ
toy_initialize r n = (
  record {
    outcome = resolved (toy_status r.input);
    credentials_handle = r.credentials_handle;
    output = n ∷ [];
  },
  suc n,
)

-- The client counts its calls, and a user name is a text.
instance abbrev toy_sspi : SspiCrate ℕ Text ℕ
toy_sspi = record {
  new_ntlm = 1;
  new_username = λ name domain. inr (domain ++ (0x5c ∷ name));
  use_dce_style = 0x200;
  acquire_credentials_handle = λ user password n. (inr 7, n);
  initialize_security_context = toy_initialize;
  complete_auth_token = λ output n. (inr (output ++ (9 ∷ [])), n);
}

abbrev lab_user : NtlmRpcAuthProvider ℕ Text ℕ
lab_user = record {
  client = 1;
  username = codes "LAB" ++ (0x5c ∷ codes "Administrator");
  password = codes "Password1";
  credentials_handle = none;
  target = none;
  auth_level = connect;
  auth_context_id = 0;
  established = false;
}

lab_user_new :
    new_provider {N = ℕ} {U = Text} {C = ℕ}
      (codes "LAB")
      (codes "Administrator")
      (codes "Password1")
    ≡ ok lab_user
unfolding new_provider
lab_user_new = refl

abbrev ntlm_handshake : List ProviderCall
ntlm_handshake = step_call [] ∷ (init_call (codes "server") ∷ (step_call (5 ∷ []) ∷ []))

perform_all-IsCoherent_example : IsCoherent (perform_all ntlm_handshake lab_user)
perform_all-IsCoherent_example =
    perform_all-IsCoherent (codes "LAB") (codes "Administrator") (codes "Password1") lab_user_new
      ntlm_handshake

-- The first token is the crate's, and the second is what the crate completed.
abbrev lab_tokens : List Bytes
lab_tokens = (1 ∷ []) ∷ ((2 ∷ (9 ∷ [])) ∷ [])

abbrev authenticated : NtlmRpcAuthProvider ℕ Text ℕ
authenticated = record lab_user {
  client = 3;
  credentials_handle = some 7;
  target = some (codes "server");
  established = true;
}

lab_handshake : handshake (codes "server") ((5 ∷ []) ∷ []) lab_user ≡ (ok lab_tokens, authenticated)
unfolding init_context step next_token next_token_with take_outcome complete_token
lab_handshake = refl

handshake-Run_example :
    (handshake (codes "server") ((5 ∷ []) ∷ []) lab_user ≡ (ok lab_tokens, authenticated))
    ↔ Run lab_user (codes "server") ((5 ∷ []) ∷ []) lab_tokens authenticated
handshake-Run_example =
    handshake-Run lab_user (codes "server") ((5 ∷ []) ∷ []) lab_tokens authenticated

lab-Run : Run lab_user (codes "server") ((5 ∷ []) ∷ []) lab_tokens authenticated
lab-Run =
    (handshake-Run lab_user (codes "server") ((5 ∷ []) ∷ []) lab_tokens authenticated).0
      lab_handshake
