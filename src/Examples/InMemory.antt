-- ===== src/Examples/InMemory.antt =====
-- examples/in_memory_bind_call.rs: a bind and a call against PDUs that the program makes itself. Its
-- transport is in Client/Receive/Queue.
pub mod Ack
pub mod Run
use msrpce_dcerpc.Base.{ℕ, zero, suc, ◌%◌, Bytes, length, List, [], ◌∷◌, ◌++◌, ok, panic, diverge}
use msrpce_dcerpc.Base.{◌>>=◌, ◌>>◌, ◌==◌, ◌&&◌, Bool, true, false, if◌then◌else◌}
use msrpce_dcerpc.Base.{u16_to_le_bytes, u32_to_le_bytes}
use msrpce_dcerpc.Crates.{NdrCrate, UuidCrate}
use msrpce_dcerpc.Error.{Result, acceptance, PresentationRejectReason}
use msrpce_dcerpc.Error.{presentation_result_code, presentation_reject_reason_code}
use msrpce_dcerpc.Auth.{AuthProvider}
use msrpce_dcerpc.Syntax.{InterfaceId, ndr32, encode_syntax, transfer_syntax_id}
use msrpce_dcerpc.Pdu.Kind
use msrpce_dcerpc.Pdu.Header.{new_header}
use msrpce_dcerpc.Pdu.Bodies.{ResponsePdu}
use msrpce_dcerpc.Pdu.Packet.{encode_packet, new_packet, from_response}
use msrpce_dcerpc.Bind.Context.{expect}
use msrpce_dcerpc.Bind.Ack.{PresentationResult, BindAckPdu}
use msrpce_dcerpc.Client.Receive.Queue.{Queue, queue_transport}
use msrpce_dcerpc.Client.Bind.{bind}
use msrpce_dcerpc.Client.Call.{call_raw}

-- `assert_eq!`, of a comparison.
abbrev assert_true : Bool → Result (Unit {0})
assert_true true = ok tt
assert_true false = panic

-- `==` of byte vectors.
abbrev bytes_equal : Bytes → Bytes → Bool
bytes_equal [] [] = true
bytes_equal [] (c ∷ cs) = false
bytes_equal (b ∷ bs) [] = false
bytes_equal (b ∷ bs) (c ∷ cs) = (b == c) && bytes_equal bs cs

-- `while !body.len().is_multiple_of(4) { body.push(0); }`, with the rounds that it may take.
unfoldable pub push_padding : ℕ → Bytes → Result Bytes
push_padding zero body = diverge
push_padding (suc rounds) body =
    let padded = push_padding rounds (body ++ (0 ∷ [])) in
    if length body % 4 == 0 then ok body else padded

-- `MemoryTransport::new`
abbrev pub new_transport : List Bytes → Queue
new_transport incoming = record { incoming = incoming; sent = [] }

-- The response that the program queues.
abbrev pub queued_response : ResponsePdu
queued_response = record {
  alloc_hint = 3;
  ctx_id = 0;
  cancel_count = 0;
  stub_data = 0xAA ∷ 0xBB ∷ 0xCC ∷ [];
}

module _ {Uuid : Type 0} ⦃u : UuidCrate Uuid⦄ where
  -- The loop over the results.
  unfoldable pub encode_results : List (PresentationResult Uuid) → Bytes
  encode_results [] = []
  encode_results (r ∷ rs) =
      u16_to_le_bytes (presentation_result_code r.result)
      ++ (u16_to_le_bytes (presentation_reject_reason_code r.reason)
          ++ (encode_syntax r.transfer_syntax ++ encode_results rs))

  -- The body that `bind_ack_packet` makes of `ack`; the loop has four rounds.
  unfoldable pub encode_ack : BindAckPdu Uuid → Result Bytes
  encode_ack ack = do
    body ← push_padding 4 (
        u16_to_le_bytes ack.max_xmit_frag
        ++ (u16_to_le_bytes ack.max_recv_frag
            ++ (u32_to_le_bytes ack.assoc_group_id
                ++ (u16_to_le_bytes (length ack.secondary_addr % 65536) ++ ack.secondary_addr))))
    ok (body ++ (length ack.results % 256 ∷ 0 ∷ (u16_to_le_bytes 0 ++ encode_results ack.results)))

  -- `ack` of `bind_ack_packet`
  abbrev pub accepting_ack : BindAckPdu Uuid
  accepting_ack = record {
    max_xmit_frag = 4280;
    max_recv_frag = 4280;
    assoc_group_id = 1;
    secondary_addr = [];
    results =
        record {
          result = acceptance;
          reason = PresentationRejectReason.reason_not_specified;
          transfer_syntax = transfer_syntax_id ndr32;
        }
        ∷ [];
  }

module _ (Uuid : Type 0) ⦃n : NdrCrate⦄ ⦃u : UuidCrate Uuid⦄ where
  -- `bind_ack_packet`
  unfoldable pub bind_ack_packet : ℕ → Result Bytes
  bind_ack_packet call_id = do
    body ← encode_ack {Uuid = Uuid} accepting_ack
    expect (encode_packet (new_packet (new_header Kind.bind_ack 3 call_id) body []))

  -- `interface` of `main`
  abbrev pub interface_id : InterfaceId Uuid
  interface_id = record {
    uuid = u.from_u128 0x1111_1111_2222_3333_4444_5555_5555_5555;
    major_version = 1;
    minor_version = 0;
  }

  -- `main`; the receiving loop has one round, for the one response.
  unfoldable pub main : (P : Type 0) ⦃a : AuthProvider P⦄ → Result (Unit {0})
  main P = do
    bind_ack ← bind_ack_packet 1
    response ← encode_packet (from_response 2 queued_response)
    client ← (bind {P = P} interface_id (new_transport (bind_ack ∷ response ∷ []))).0
    let (result, client') = call_raw Uuid 1 0 (0x01 ∷ 0x02 ∷ 0x03 ∷ []) client in
        do
          response_stub ← result
          assert_true (bytes_equal response_stub (0xAA ∷ 0xBB ∷ 0xCC ∷ []))
          assert_true (length client'.transport.sent == 2)
