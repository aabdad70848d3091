-- ===== src/Providers/Ntlm/Coherent.antt =====
-- The states that the NTLM provider can be in, whatever is called and however the calls come out.
use msrpce_dcerpc.Base.{
  Bool, false, ◌≡◌, refl, arith, Bytes, String, List, [], ◌∷◌, Option, none, some, ok, ◌⊎◌, inl,
  inr,
}
use msrpce_dcerpc.Base.Text.{Text}
use msrpce_dcerpc.Providers.Calls.{ProviderCall, init_call, step_call}
use msrpce_dcerpc.Providers.Ntlm.{
  SspiCrate, initialize_request, SecurityStatus, InitializeOutcome, initialize_failed,
  generation_failed, resolved, NtlmRpcAuthProvider, new_provider, complete_token, take_outcome,
  next_token_with, next_token, init_context, after_credentials, step,
}

-- Credentials and a target are there or missing together, and a context is established only where
-- they are there.
abbrev pub Together : {C : Type 0} → Option C → Option Text → Bool → Type 0
Together none none established = established ≡ false
Together none (some target) established = ⊥
Together (some c) none established = ⊥
Together (some c) (some target) established = Unit {0}

abbrev pub IsCoherent : {N U C : Type 0} → NtlmRpcAuthProvider N U C → Type 0
IsCoherent p = Together p.credentials_handle p.target p.established

module _ {N U C : Type 0} ⦃s : SspiCrate N U C⦄ where
  complete_token-Together :
      (c : C) (t : Text) (status : SecurityStatus) (output : Bytes) (p : NtlmRpcAuthProvider N U C)
      → p.credentials_handle ≡ some c
      → p.target ≡ some t
      → IsCoherent (complete_token status output p).1
  unfolding complete_token
  complete_token-Together c t status output p e f = ground arith

  take_outcome-Together :
      (c : C) (t : Text) (o : InitializeOutcome) (output : Bytes) (p : NtlmRpcAuthProvider N U C)
      → p.credentials_handle ≡ some c
      → p.target ≡ some t
      → IsCoherent (take_outcome o output p).1
  unfolding take_outcome
  take_outcome-Together c t (initialize_failed m) output p e f = rw (e, f) tt
  take_outcome-Together c t (generation_failed m) output p e f = rw (e, f) tt
  take_outcome-Together c t (resolved status) output p e f =
      complete_token-Together c t status output p e f

  next_token_with-Together :
      (held : Option C) (target : Option Text) (input : Option Bytes)
      (p : NtlmRpcAuthProvider N U C)
      → p.credentials_handle ≡ held
      → p.target ≡ target
      → Together held target p.established
      → IsCoherent (next_token_with held target input p).1
  unfolding next_token_with
  next_token_with-Together none none input p e f w = rw (e, f) w
  next_token_with-Together none (some t) input p e f w = absurd w
  next_token_with-Together (some c) none input p e f w = absurd w
  next_token_with-Together (some c) (some t) input p e f w =
      let (reply, client') =
        s.initialize_security_context (initialize_request s c t input) p.client in
      take_outcome-Together reply.credentials_handle t reply.outcome reply.output
        (record p { client = client'; credentials_handle = some reply.credentials_handle }) refl f

  next_token-IsCoherent :
      (input : Option Bytes) (p : NtlmRpcAuthProvider N U C)
      → IsCoherent p
      → IsCoherent (next_token input p).1
  unfolding next_token
  next_token-IsCoherent input p w =
      next_token_with-Together p.credentials_handle p.target input p refl refl w

  after_credentials-IsCoherent :
      (target : Text) (x : (String ⊎ C) × N) (p : NtlmRpcAuthProvider N U C)
      → IsCoherent p
      → IsCoherent (after_credentials target x p).1
  after_credentials-IsCoherent target (inl message, client') p w = w
  after_credentials-IsCoherent target (inr credentials, client') p w =
      next_token-IsCoherent none
        (record p { client = client'; credentials_handle = some credentials; target = some target })
        tt

  init_context-IsCoherent :
      (target : Text) (p : NtlmRpcAuthProvider N U C)
      → IsCoherent p
      → IsCoherent (init_context target p).1
  unfolding init_context
  init_context-IsCoherent target p w =
      after_credentials-IsCoherent target
        (s.acquire_credentials_handle p.username p.password p.client) p w

  -- One call, its result set aside.
  abbrev pub perform : ProviderCall → NtlmRpcAuthProvider N U C → NtlmRpcAuthProvider N U C
  perform (init_call target) p = (init_context target p).1
  perform (step_call challenge) p = (step challenge p).1

  abbrev pub perform_all : List ProviderCall → NtlmRpcAuthProvider N U C → NtlmRpcAuthProvider N U C
  perform_all [] p = p
  perform_all (call ∷ calls) p = perform_all calls (perform call p)

  perform-IsCoherent :
      (call : ProviderCall) (p : NtlmRpcAuthProvider N U C)
      → IsCoherent p
      → IsCoherent (perform call p)
  unfolding step
  perform-IsCoherent (init_call target) p w = init_context-IsCoherent target p w
  perform-IsCoherent (step_call challenge) p w = next_token-IsCoherent (some challenge) p w

  IsCoherent-perform_all :
      (calls : List ProviderCall) (p : NtlmRpcAuthProvider N U C)
      → IsCoherent p
      → IsCoherent (perform_all calls p)
  IsCoherent-perform_all [] p w = w
  IsCoherent-perform_all (call ∷ calls) p w =
      IsCoherent-perform_all calls (perform call p) (perform-IsCoherent call p w)

  new_provider-IsCoherent :
      (domain username password : Text) {p : NtlmRpcAuthProvider N U C}
      → new_provider domain username password ≡ ok p
      → IsCoherent p
  unfolding new_provider
  new_provider-IsCoherent domain username password h = ground arith

  -- After any sequence of `init_context` and `step` calls on a new NTLM provider, however the calls
  -- of the crate come out, credentials and target are both there or both missing, and where they
  -- are missing no context is established.
  pub perform_all-IsCoherent :
      (domain username password : Text) {p : NtlmRpcAuthProvider N U C}
      → new_provider domain username password ≡ ok p
      → (calls : List ProviderCall) → IsCoherent (perform_all calls p)
  perform_all-IsCoherent domain username password {p} h calls =
      IsCoherent-perform_all calls p (new_provider-IsCoherent domain username password h)
