-- ===== src/Tests/Bind.antt =====
-- Contexts, acknowledgements and handshakes at concrete inputs.
use msrpce_dcerpc.Base.{
  ℕ, zero, suc, List, [], ◌∷◌, ◌++◌, All, ok, err, panic, ◌≡◌, ◌↔◌, refl, arith, replicate,
}
use msrpce_dcerpc.Base.{Returns, length-replicate}
use msrpce_dcerpc.Error.{invalid_pdu, acceptance, provider_rejection, PresentationRejectReason}
use msrpce_dcerpc.Syntax.{SyntaxId}
use msrpce_dcerpc.Pdu.Bodies.{BindPdu}
use msrpce_dcerpc.Bind.Context.{
  PresentationContext, bind_with_contexts, bind_contexts, decode_context_list,
}
use msrpce_dcerpc.Bind.Context.RoundTrip.{IsWireContext, bind_contexts-bind_with_contexts}
use msrpce_dcerpc.Bind.Context.Limits.{bind_with_contexts_panics, bind_contexts_overflow}
use msrpce_dcerpc.Syntax.{InterfaceId, interface_syntax_id, encode_syntax, decode_syntax}
use msrpce_dcerpc.Syntax.Version.{encode_syntax-interface_syntax_id}
use msrpce_dcerpc.Base.{u16_to_le_bytes}
use msrpce_dcerpc.Bind.Context.Total.{decode_context_list-Returns}
use msrpce_dcerpc.Bind.Ack.Total.{decode_bind_ack-Returns}
use msrpce_dcerpc.Bind.Ack.{
  BindAckPdu, AcceptedContext, PresentationResult, accepted_context, decode_bind_ack,
}
use msrpce_dcerpc.Bind.Ack.Accept.{
  Accepts, IsDeclined, accepted_context_iff, accepted_context_declined, rejections, first_error,
}
use msrpce_dcerpc.Bind.Ack.RoundTrip.{IsWireAck, wire_ack, decode_bind_ack-wire_ack}
use msrpce_dcerpc.Base.{Bytes}
use msrpce_dcerpc.Examples.InMemory.{encode_ack}
use msrpce_dcerpc.Examples.InMemory.Ack.{IsAck, decode_bind_ack-encode_ack}
use msrpce_dcerpc.Tests.Crates.{test_ndr, test_uuid, TestUuid, nil_uuid, test_provider}

abbrev pub syntax : ℕ → SyntaxId TestUuid
syntax version = record { uuid = nil_uuid; version = version }

abbrev pub context : PresentationContext TestUuid
context = record { context_id = 5; abstract_syntax = syntax 1; transfer_syntaxes = syntax 2 ∷ [] }

pub context-IsWireContext : IsWireContext context
context-IsWireContext = record {
  id = omega arith;
  abstract = omega arith;
  transfers = (omega arith, tt);
  count = omega arith;
}

abbrev pub accepting : PresentationResult TestUuid
accepting = record {
  result = acceptance;
  reason = PresentationRejectReason.reason_not_specified;
  transfer_syntax = syntax 2;
}

abbrev declining : PresentationResult TestUuid
declining = record accepting {
  result = provider_rejection;
  reason = PresentationRejectReason.local_limit_exceeded;
}

abbrev pub ack_of : List (PresentationResult TestUuid) → BindAckPdu TestUuid
ack_of results = record {
  max_xmit_frag = 4280;
  max_recv_frag = 4280;
  assoc_group_id = 9;
  secondary_addr = [];
  results = results;
}

abbrev pub answer : AcceptedContext TestUuid
answer = record { context_id = 5; transfer_syntax = syntax 2 }

pub answer-Accepts : Accepts (accepting ∷ []) (context ∷ []) 0 answer
answer-Accepts = record {
  before = [];
  chosen = accepting;
  after = [];
  context = context;
  split = refl;
  declined = tt;
  accepted = refl;
  found = refl;
  answer = refl;
}

pub ack-IsWireAck : IsWireAck (ack_of (accepting ∷ [])) (0 ∷ 0 ∷ [])
ack-IsWireAck = record {
  xmit = omega arith;
  recv = omega arith;
  group = omega arith;
  addr = omega arith;
  padded = omega arith;
  short = omega arith;
  results = (omega arith, tt);
}

accepted_context_iff_example :
    (accepted_context (ack_of (accepting ∷ [])) (context ∷ []) ≡ ok answer)
    ↔ Accepts (accepting ∷ []) (context ∷ []) 0 answer
accepted_context_iff_example = accepted_context_iff (ack_of (accepting ∷ [])) (context ∷ []) answer

declined : All (IsDeclined {Uuid = TestUuid}) (declining ∷ [])
declined = (λ e. cc e, tt)

accepted_context_declined_example :
    accepted_context (ack_of (declining ∷ [])) (context ∷ [])
    ≡ first_error (rejections (declining ∷ []) (context ∷ []))
accepted_context_declined_example =
    accepted_context_declined (ack_of (declining ∷ [])) (context ∷ []) declined (omega arith)

decode_bind_ack-wire_ack_example :
    decode_bind_ack (wire_ack (ack_of (accepting ∷ [])) (0 ∷ 0 ∷ []) 0 0 0)
    ≡ ok (ack_of (accepting ∷ []))
decode_bind_ack-wire_ack_example =
    decode_bind_ack-wire_ack (ack_of (accepting ∷ [])) (0 ∷ 0 ∷ []) 0 0 0 ack-IsWireAck

bind_contexts-bind_with_contexts_example :
    (p : BindPdu) × (bind_with_contexts 4280 4280 0 (context ∷ []) ≡ ok p)
    × (p.max_xmit_frag ≡ 4280)
    × (p.max_recv_frag ≡ 4280)
    × (p.assoc_group_id ≡ 0)
    × (bind_contexts p ≡ ok (context ∷ []))
bind_contexts-bind_with_contexts_example =
    bind_contexts-bind_with_contexts 4280 4280 0 (context ∷ []) (context-IsWireContext, tt)
      (omega arith)

replicate-All : (n : ℕ) → All IsWireContext (replicate n context)
replicate-All zero = tt
replicate-All (suc n) = (context-IsWireContext, replicate-All n)

bind_contexts_overflow_example :
    (p : BindPdu) × (bind_with_contexts 4280 4280 0 (replicate 257 context) ≡ ok p)
    × (bind_contexts {Uuid = TestUuid} p
        ≡ err (invalid_pdu "presentation context list has trailing bytes"))
bind_contexts_overflow_example =
    bind_contexts_overflow 4280 4280 0 (replicate 257 context) (replicate-All 257)
      (omega (arith, length-replicate {A = PresentationContext TestUuid} 257 context))

abbrev crowded : PresentationContext TestUuid
crowded = record context { transfer_syntaxes = replicate 256 (syntax 2) }

bind_with_contexts_panics_example :
    bind_with_contexts 4280 4280 0 ((context ∷ []) ++ (crowded ∷ [])) ≡ panic
bind_with_contexts_panics_example =
    bind_with_contexts_panics 4280 4280 0 (context ∷ []) crowded [] (context-IsWireContext, tt)
      (omega (arith, length-replicate {A = SyntaxId TestUuid} 256 (syntax 2)))

-- Version 3.1 of an interface.
abbrev interface : InterfaceId TestUuid
interface = record { uuid = nil_uuid; major_version = 3; minor_version = 1 }

encode_syntax-interface_syntax_id_example :
    (encode_syntax (interface_syntax_id interface)
      ≡ test_uuid.to_bytes_le nil_uuid ++ (u16_to_le_bytes 3 ++ u16_to_le_bytes 1))
    × (decode_syntax (encode_syntax (interface_syntax_id interface) ++ (7 ∷ []))
        ≡ ok (interface_syntax_id interface))
encode_syntax-interface_syntax_id_example =
    encode_syntax-interface_syntax_id interface (7 ∷ []) (omega arith) (omega arith)

-- An acknowledgement with an address of three bytes.
abbrev addressed : BindAckPdu TestUuid
addressed = record (ack_of (accepting ∷ declining ∷ [])) { secondary_addr = 49 ∷ 51 ∷ 53 ∷ [] }

addressed-IsAck : IsAck addressed
addressed-IsAck = record {
  xmit = omega arith;
  recv = omega arith;
  group = omega arith;
  addr = omega arith;
  count = omega arith;
  results = (omega arith, (omega arith, tt));
}

decode_bind_ack-encode_ack_example :
    (bytes : Bytes) × (encode_ack addressed ≡ ok bytes) × (decode_bind_ack bytes ≡ ok addressed)
decode_bind_ack-encode_ack_example = decode_bind_ack-encode_ack addressed addressed-IsAck

decode_bind_ack-Returns_example : Returns (decode_bind_ack {Uuid = TestUuid} (1 ∷ 2 ∷ 3 ∷ []))
decode_bind_ack-Returns_example = decode_bind_ack-Returns TestUuid (1 ∷ 2 ∷ 3 ∷ [])

decode_context_list-Returns_example :
    Returns (decode_context_list {Uuid = TestUuid} (2 ∷ 0 ∷ 0 ∷ 0 ∷ []))
decode_context_list-Returns_example = decode_context_list-Returns TestUuid (2 ∷ 0 ∷ 0 ∷ 0 ∷ [])
