-- ===== src/Providers/Ntlm/Protocol.antt =====
-- What a handshake with NTLM is, in the calls of the crate `sspi`: the specification of the provider's
-- `init_context` and `step`.
use msrpce_dcerpc.Base.{ℕ, Bool, true, false, ◌≡◌, Bytes, List, [], ◌∷◌, Option, inr}
use msrpce_dcerpc.Base.Text.{Text}
use msrpce_dcerpc.Providers.Ntlm.{
  SspiCrate, SecurityStatus, continue_needed, complete_needed, complete_and_continue, other_status,
  resolved,
}

module _ {N U C : Type 0} (s : SspiCrate N U C) where
  -- The crate's answer when it is asked with some credentials, for a target, with the flag for the
  -- DCE style and with the challenge, if there is one.
  abbrev pub Answer : Text → Option Bytes → N → C → SecurityStatus → C → Bytes → N → Type 0
  Answer target challenge n c status c' output n' =
      s.initialize_security_context
        (record {
          credentials_handle = c;
          context_requirements = s.use_dce_style;
          target_name = target;
          input = challenge;
        })
        n
      ≡ (record { outcome = resolved status; credentials_handle = c'; output = output }, n')

  -- One leg: a challenge or none goes in and a token comes out, by the status of the answer. Where it
  -- asks for a completion, the token is what the crate completes; where it does not ask for another
  -- leg, the context is established.
  pub data Leg (target : Text) (challenge : Option Bytes) (n : N) (c : C)
      : Bytes → N → C → Bool → Type 0 where
    continued :
        {c' : C} {token : Bytes} {n' : N}
        → Answer target challenge n c continue_needed c' token n'
        → Leg target challenge n c token n' c' false
    completed_and_continued :
        {c' : C} {output token : Bytes} {n' n'' : N}
        → Answer target challenge n c complete_and_continue c' output n'
        → s.complete_auth_token output n' ≡ (inr token, n'')
        → Leg target challenge n c token n'' c' false
    completed :
        {c' : C} {output token : Bytes} {n' n'' : N}
        → Answer target challenge n c complete_needed c' output n'
        → s.complete_auth_token output n' ≡ (inr token, n'')
        → Leg target challenge n c token n'' c' true
    finished :
        (k : ℕ) {c' : C} {token : Bytes} {n' : N}
        → Answer target challenge n c (other_status k) c' token n'
        → Leg target challenge n c token n' c' true

  -- Legs one after the other: each goes on with the client and the credentials that the one before
  -- left, and the last says whether the context is established.
  pub data Legs (target : Text)
      : List (Option Bytes) → N → C → Bool → List Bytes → N → C → Bool → Type 0 where
    none_left : {n : N} {c : C} {e : Bool} → Legs target [] n c e [] n c e
    next :
        {challenge : Option Bytes} {challenges : List (Option Bytes)} {token : Bytes}
        {tokens : List Bytes} {n n' n'' : N} {c c' c'' : C} {e e' e'' : Bool}
        → Leg target challenge n c token n' c' e'
        → Legs target challenges n' c' e' tokens n'' c'' e''
        → Legs target (challenge ∷ challenges) n c e (token ∷ tokens) n'' c'' e''
