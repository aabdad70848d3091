-- ===== src/Tests/Gssapi.antt =====
-- The GSSAPI provider over a concrete library that keeps two slots for the objects of each kind.
use mathlib.Core.Path.{fun_ext}
use msrpce_dcerpc.Base.{
  ℕ, Bool, true, false, ◌==◌, if◌then◌else◌, ◌≡◌, ◌≢◌, refl, ap, ap₂, ◌∙◌, arith, List, [], ◌∷◌,
  some, Returns, inl, inr, Bool-cases, ==→eq,
}
use msrpce_dcerpc.Base.Text.{Text, codes}
use msrpce_dcerpc.Providers.Calls.{ProviderCall, init_call, step_call}
use msrpce_dcerpc.Providers.Gssapi.Library.{
  GssapiLibrary, InitRequest, InitReply, NewHandle, Live, own, disown, IsHeld, IsFresh,
}
use msrpce_dcerpc.Providers.Gssapi.Provider.{
  gssapi_auth_provider, GssapiKerberosRpcAuthProvider, new_provider, with_service_principal,
  init_context, drop_provider,
}
use msrpce_dcerpc.Providers.Gssapi.Outcomes.{
  InitOutcome, init_context-InitOutcome, gssapi-IsAnswering,
}
use msrpce_dcerpc.Providers.Gssapi.Leaks.{perform_all, drop_provider-perform_all}
use msrpce_dcerpc.Client.Receive.Queue.{Queue, queue_transport, queue_transport-IsFinite}
use msrpce_dcerpc.Client.Bind.{bind_with_contexts_inner}
use msrpce_dcerpc.Client.Bind.Total.{bind_with_contexts_inner-Returns}
use msrpce_dcerpc.Tests.Crates.{test_ndr, test_uuid}
use msrpce_dcerpc.Tests.Bind.{context}

-- Handle 1 and handle 2 are given out.
record Slots : Type 0 where
  first : Bool
  second : Bool

abbrev taken : Slots → ℕ → Bool
taken s k = if k == 1 then s.first else if k == 2 then s.second else false

-- The handle that is given out next, 0 for none.
abbrev next_handle : Slots → ℕ
next_handle s = if s.first then (if s.second then 0 else 2) else 1

abbrev occupy : Slots → Slots
occupy s = if s.first then record s { second = true } else record s { first = true }

abbrev clear : ℕ → Slots → Slots
clear h s =
    if h == 1 then record s { first = false } else if h == 2 then record s { second = false } else s

next_handle-IsFresh : (s : Slots) → IsFresh (next_handle s) (taken s)
next_handle-IsFresh s = λ n. ground arith

taken-occupy : (s : Slots) → taken (occupy s) ≡ own (next_handle s) (taken s)
taken-occupy s = fun_ext (λ k. ground arith)

taken-clear : (h : ℕ) (s : Slots) → taken (clear h s) ≡ disown h (taken s)
taken-clear h s = fun_ext (λ k. ground arith)

-- A context that is handed in and held is kept.
keep_context :
    (h : ℕ) (s : Slots) → IsHeld h (taken s) → h ≢ 0 → taken s ≡ own h (disown h (taken s))
keep_context h s held n = fun_ext (λ k. elim (Bool-cases (k == h)) [
  | inl e ↦ rw (==→eq k h e) (held n ∙ ground arith)
  | inr e ↦ ground arith
])

disown-IsFresh : (h : ℕ) (s : ℕ → Bool) → IsFresh h (disown h s)
disown-IsFresh h s = λ n. ground arith

record ToyState : Type 0 where
  names : Slots
  creds : Slots
  contexts : Slots
  buffers : Slots

abbrev toy_live : ToyState → Live
toy_live g = record {
  names = taken g.names;
  creds = taken g.creds;
  contexts = taken g.contexts;
  buffers = taken g.buffers;
}

-- A call fails where the slots are taken; 0 is success, 1 asks for another token, 2 is a failure.
abbrev status_of : ℕ → ℕ
status_of h = if h == 0 then 2 else 0

abbrev toy_import : Text → ToyState → NewHandle × ToyState
toy_import s g = (
  record { major = status_of (next_handle g.names); minor = 0; handle = next_handle g.names },
  record g { names = occupy g.names },
)

abbrev toy_acquire : ToyState → NewHandle × ToyState
toy_acquire g = (
  record { major = status_of (next_handle g.creds); minor = 0; handle = next_handle g.creds },
  record g { creds = occupy g.creds },
)

-- The first call makes a context; each gives a token, and the second is the last.
abbrev toy_init : InitRequest → ToyState → InitReply × ToyState
toy_init r g = (
  record {
    major = if r.context == 0 then 1 else 0;
    minor = 0;
    context = if r.context == 0 then next_handle g.contexts else r.context;
    output = record { length = 2; value = next_handle g.buffers };
  },
  record g {
    contexts = if r.context == 0 then occupy g.contexts else g.contexts;
    buffers = occupy g.buffers;
  },
)

-- Nothing changes where no slot is free.
taken-occupy_full : (s : Slots) → status_of (next_handle s) ≢ 0 → taken (occupy s) ≡ taken s
taken-occupy_full s f = fun_ext (λ k. ground arith)

toy_import_ok :
    (s : Text) (g : ToyState)
    → (toy_import s g).0.major ≡ 0
    → IsFresh (toy_import s g).0.handle (taken g.names)
      × (toy_live (toy_import s g).1
          ≡ record (toy_live g) { names = own (toy_import s g).0.handle (taken g.names) })
toy_import_ok s g e = (
  next_handle-IsFresh g.names,
  ap (λ t. record (toy_live g) { names = t }) (taken-occupy g.names),
)

toy_acquire_ok :
    (g : ToyState)
    → (toy_acquire g).0.major ≡ 0
    → IsFresh (toy_acquire g).0.handle (taken g.creds)
      × (toy_live (toy_acquire g).1
          ≡ record (toy_live g) { creds = own (toy_acquire g).0.handle (taken g.creds) })
toy_acquire_ok g e = (
  next_handle-IsFresh g.creds,
  ap (λ t. record (toy_live g) { creds = t }) (taken-occupy g.creds),
)

-- The context handle that a call leaves, and the live contexts then.
contexts_after :
    (b : Bool) (h : ℕ) (s : Slots)
    → (h == 0) ≡ b
    → IsHeld h (taken s)
    → IsFresh (if b then next_handle s else h) (disown h (taken s))
      × (taken (if b then occupy s else s)
          ≡ own (if b then next_handle s else h) (disown h (taken s)))
contexts_after true h s e held =
    let z : h ≡ 0 = ==→eq h 0 e in rw z (next_handle-IsFresh s, taken-occupy s)
contexts_after false h s e held = (disown-IsFresh h (taken s), keep_context h s held (ground arith))

toy_init_objects :
    (r : InitRequest) (g : ToyState)
    → IsHeld r.name (taken g.names)
    → IsHeld r.credential (taken g.creds)
    → IsHeld r.context (taken g.contexts)
    → IsFresh (toy_init r g).0.context (disown r.context (taken g.contexts))
      × IsFresh (toy_init r g).0.output.value (taken g.buffers)
      × (toy_live (toy_init r g).1 ≡ record (toy_live g) {
        contexts = own (toy_init r g).0.context (disown r.context (taken g.contexts));
        buffers = own (toy_init r g).0.output.value (taken g.buffers);
      })
toy_init_objects r g hn hc hx =
    let made = contexts_after (r.context == 0) r.context g.contexts refl hx in
    (
      made.0,
      next_handle-IsFresh g.buffers,
      ap₂ (λ t u. record (toy_live g) { contexts = t; buffers = u }) made.1
          (taken-occupy g.buffers),
    )

instance abbrev toy_gssapi : GssapiLibrary ToyState
toy_gssapi = record {
  gss_s_complete = 0;
  gss_s_continue_needed = 1;
  gss_c_mutual_flag = 2;
  gss_c_integ_flag = 32;
  gss_c_dce_style = 4096;
  import_name = toy_import;
  acquire_cred = toy_acquire;
  init_sec_context = toy_init;
  delete_sec_context = λ h g. record g { contexts = clear h g.contexts };
  release_cred = λ h g. record g { creds = clear h g.creds };
  release_name = λ h g. record g { names = clear h g.names };
  release_buffer = λ h g. record g { buffers = clear h g.buffers };
  bytes_at = λ p n g. 0x60 ∷ 0x28 ∷ [];
  live = toy_live;
  import_name_ok = toy_import_ok;
  import_name_failed =
      λ s g f. ap (λ t. record (toy_live g) { names = t }) (taken-occupy_full g.names f);
  acquire_cred_ok = toy_acquire_ok;
  acquire_cred_failed =
      λ g f. ap (λ t. record (toy_live g) { creds = t }) (taken-occupy_full g.creds f);
  init_sec_context_objects = toy_init_objects;
  delete_sec_context_live =
      λ h g n t. ap (λ u. record (toy_live g) { contexts = u }) (taken-clear h g.contexts);
  release_cred_live =
      λ h g n t. ap (λ u. record (toy_live g) { creds = u }) (taken-clear h g.creds);
  release_name_live =
      λ h g n t. ap (λ u. record (toy_live g) { names = u }) (taken-clear h g.names);
  release_buffer_live =
      λ h g n t. ap (λ u. record (toy_live g) { buffers = u }) (taken-clear h g.buffers);
}

abbrev empty_slots : Slots
empty_slots = record { first = false; second = false }

abbrev idle : ToyState
idle = record {
  names = empty_slots;
  creds = empty_slots;
  contexts = empty_slots;
  buffers = empty_slots;
}

-- A handshake, a second one that replaces its context, and a third leg.
abbrev handshakes : List ProviderCall
handshakes =
    init_call (codes "cifs/server")
    ∷ (step_call (1 ∷ 2 ∷ []) ∷ (init_call (codes "host@server") ∷ (step_call [] ∷ [])))

abbrev named : GssapiKerberosRpcAuthProvider
named = with_service_principal new_provider (codes "cifs@server")

drop_provider-perform_all_example :
    toy_live (
      drop_provider
        (perform_all handshakes (named, idle)).0
        (perform_all handshakes (named, idle)).1)
    ≡ toy_live idle
drop_provider-perform_all_example = drop_provider-perform_all named handshakes idle refl

init_context-InitOutcome_example : InitOutcome named (init_context (codes "cifs/server") named idle)
init_context-InitOutcome_example = init_context-InitOutcome (codes "cifs/server") named idle

-- A bind with the Kerberos provider to a server that sends no packet.
abbrev silent : Queue
silent = record { incoming = (1 ∷ 2 ∷ 3 ∷ []) ∷ []; sent = [] }

bind_with_contexts_inner-Returns_example :
    Returns
      (bind_with_contexts_inner {P = GssapiKerberosRpcAuthProvider × ToyState}
        (context ∷ [])
        (some (codes "cifs/server", (new_provider, idle)))
        silent).0
bind_with_contexts_inner-Returns_example =
    bind_with_contexts_inner-Returns (context ∷ [])
      (some (codes "cifs/server", (new_provider, idle))) silent gssapi-IsAnswering (λ b s. tt)
      (queue_transport-IsFinite.recv_returns) (omega arith)
