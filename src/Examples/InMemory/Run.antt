-- ===== src/Examples/InMemory/Run.antt =====
-- The run of `main` of examples/in_memory_bind_call.rs.
use msrpce_dcerpc.Base.{◌+◌, ◌<◌, Bytes, length, length-append, [], ◌∷◌, ◌++◌, ok, ◌≡◌, refl, arith}
use msrpce_dcerpc.Crates.{NdrCrate, UuidCrate}
use msrpce_dcerpc.Auth.{AuthProvider}
use msrpce_dcerpc.Error.{acceptance, PresentationRejectReason}
use msrpce_dcerpc.Syntax.{
  ndr32, encode_syntax, interface_syntax_id, version_u32, pack_version, new_syntax_id,
  transfer_syntax_id,
}
use msrpce_dcerpc.Syntax.RoundTrip.{length-encode_syntax}
use msrpce_dcerpc.Pdu.Bodies.{BindPdu, encode_bind, encode_response}
use msrpce_dcerpc.Pdu.Kind
use msrpce_dcerpc.Pdu.Header.{new_header}
use msrpce_dcerpc.Pdu.Packet.{
  encode_packet, new_packet, from_response, from_response_with_flags, from_body_with_flags,
}
use msrpce_dcerpc.Pdu.Packet.RoundTrip.{wire, decode_packet-encode_packet}
use msrpce_dcerpc.Pdu.Packet.FromBody.{from_body_with_flags-IsWirePacket}
use msrpce_dcerpc.Bind.Context.{
  PresentationContext, new_context, bind_with_contexts, encode_syntaxes,
}
use msrpce_dcerpc.Bind.Context.RoundTrip.{
  IsWireContext, wire_contexts, length-wire_context, encode_context_list_wire,
}
use msrpce_dcerpc.Bind.Ack.{AcceptedContext}
use msrpce_dcerpc.Bind.Ack.Accept.{Accepts}
use msrpce_dcerpc.Bind.Ack.RoundTrip.{IsWireAck, wire_ack}
use msrpce_dcerpc.Client.Receive.Reassembly.{Part, part_wire, length-encode_response}
use msrpce_dcerpc.Client.Call.Exchange.{call_raw-response}
use msrpce_dcerpc.Client.Bind.{bind}
use msrpce_dcerpc.Client.Bind.Exchange.{
  ack_bytes, bound_client, bind_with_contexts_inner-accepted, plain_bind,
}
use msrpce_dcerpc.Client.Receive.Queue.{Queue, queue_transport}
use msrpce_dcerpc.Client.Send.Chunks.{fragments}
use msrpce_dcerpc.Client.Packets.{RpcClient}
use msrpce_dcerpc.Examples.InMemory.{
  push_padding, encode_results, encode_ack, accepting_ack, bind_ack_packet, interface_id,
  queued_response, main,
}

module _ (Uuid : Type 0) ⦃n : NdrCrate⦄ ⦃u : UuidCrate Uuid⦄ where
  abbrev ack_body : Bytes
  ack_body = wire_ack {Uuid = Uuid} accepting_ack (0 ∷ 0 ∷ []) 0 0 0

  ack_fits : length ack_body + 16 < 65536
  ack_fits = omega (
    arith,
    length-encode_syntax {Uuid = Uuid} (transfer_syntax_id ndr32),
    length-append (encode_syntax {Uuid = Uuid} (transfer_syntax_id ndr32)) [],
  )

  bind_ack_packet_lem :
      bind_ack_packet Uuid 1 ≡ ok (ack_bytes {Uuid = Uuid} accepting_ack (0 ∷ 0 ∷ []) 0 0 0 3)
  unfolding bind_ack_packet encode_ack push_padding encode_results encode_packet new_packet
      new_header from_body_with_flags
  bind_ack_packet_lem =
      let packet = from_body_with_flags Kind.bind_ack 1 3 ack_body in
      let written =
        (decode_packet-encode_packet packet (
          from_body_with_flags-IsWirePacket Kind.bind_ack 1 3 ack_body (omega arith) (omega arith)
            ack_fits)).0 in
      rw written refl

  abbrev part : Part
  part = record { flags = 3; pdu = queued_response }

  response_lem : encode_packet (from_response 2 queued_response) ≡ ok (part_wire 2 part)
  unfolding from_response from_response_with_flags
  response_lem =
      let body = encode_response queued_response in
      (decode_packet-encode_packet (from_body_with_flags Kind.response 2 3 body) (
        from_body_with_flags-IsWirePacket Kind.response 2 3 body (omega arith) (omega arith)
          (omega (arith, length-encode_response queued_response)))).0

  abbrev proposed : PresentationContext Uuid
  proposed = new_context 0 (interface_syntax_id (interface_id Uuid)) (ndr32 ∷ [])

  proposed-IsWireContext : IsWireContext proposed
  unfolding new_context interface_syntax_id version_u32 pack_version new_syntax_id
      transfer_syntax_id
  proposed-IsWireContext = record {
    id = omega arith;
    abstract = omega arith;
    transfers = (omega arith, tt);
    count = omega arith;
  }

  abbrev the_bind : BindPdu
  the_bind = record {
    max_xmit_frag = 4280;
    max_recv_frag = 4280;
    assoc_group_id = 0;
    presentation_context_list = 1 ∷ 0 ∷ 0 ∷ 0 ∷ wire_contexts (proposed ∷ []);
  }

  bind_made : bind_with_contexts 4280 4280 0 (proposed ∷ []) ≡ ok the_bind
  unfolding bind_with_contexts
  bind_made = rw (encode_context_list_wire (proposed ∷ []) (proposed-IsWireContext, tt)) refl

  bind_fits : length (encode_bind the_bind) + 16 < 65536
  unfolding encode_bind new_context
  bind_fits =
      let a = encode_syntax proposed.abstract_syntax in
      let t = encode_syntaxes proposed.transfer_syntaxes in
      omega (arith, length-wire_context proposed, length-append (a ++ t) [])

  ack-IsWireAck : IsWireAck {Uuid = Uuid} accepting_ack (0 ∷ 0 ∷ [])
  unfolding pack_version new_syntax_id transfer_syntax_id
  ack-IsWireAck = record {
    xmit = omega arith;
    recv = omega arith;
    group = omega arith;
    addr = omega arith;
    padded = omega arith;
    short = omega arith;
    results = (omega arith, tt);
  }

  abbrev accepted : AcceptedContext Uuid
  accepted = record { context_id = 0; transfer_syntax = transfer_syntax_id ndr32 }

  ack-Accepts : Accepts (accepting_ack {Uuid = Uuid}).results (proposed ∷ []) 0 accepted
  unfolding new_context
  ack-Accepts = record {
    before = [];
    chosen = record {
      result = acceptance;
      reason = PresentationRejectReason.reason_not_specified;
      transfer_syntax = transfer_syntax_id ndr32;
    };
    after = [];
    context = proposed;
    split = refl;
    declined = tt;
    accepted = refl;
    found = refl;
    answer = refl;
  }

  module _ (P : Type 0) ⦃a : AuthProvider P⦄ where
    -- `main` comes to its end without an error, and neither assertion fails, whatever the crates do
    -- beyond what they document.
    pub main_ok : main Uuid P ≡ ok tt
    unfolding main bind fragments
    main_ok =
        let q : Queue = record {
          incoming = part_wire 2 part ∷ [];
          sent = wire (plain_bind the_bind) ∷ [];
        } in
        let c : RpcClient Queue P = bound_client accepting_ack accepted q in
        let bound =
          bind_with_contexts_inner-accepted {P = P} proposed [] accepting_ack (0 ∷ 0 ∷ []) 0 0 0 3
            accepted ack-IsWireAck (omega arith) ack_fits ack-Accepts the_bind
            (part_wire 2 part ∷ []) [] bind_made bind_fits in
        let call =
          call_raw-response Uuid c (omega arith) tt (omega arith) (omega arith) 0 (1 ∷ 2 ∷ 3 ∷ [])
            [] part [] 0 tt
            (record {
              small = omega arith;
              fields = record { hint = omega arith; ctx = omega arith };
              fits = omega arith;
            })
            refl refl in
        rw (bind_ack_packet_lem, response_lem, bound, call) refl
