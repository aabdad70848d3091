-- ===== src/Tests/Channel.antt =====
-- The client over a named pipe, at concrete inputs.
use msrpce_dcerpc.Base.{Bytes, List, [], ◌∷◌, All, ok, ◌≡◌, refl, arith, none}
use msrpce_dcerpc.Pdu.Kind
use msrpce_dcerpc.Pdu.Bodies.{encode_response}
use msrpce_dcerpc.Pdu.Packet.{PduPacket, from_body_with_flags}
use msrpce_dcerpc.Pdu.Packet.RoundTrip.{IsWirePacket}
use msrpce_dcerpc.Pdu.Packet.FromBody.{from_body_with_flags-IsWirePacket}
use msrpce_dcerpc.Bind.Ack.RoundTrip.{wire_ack}
use msrpce_dcerpc.Transport.Simulation.{Simulates}
use msrpce_dcerpc.Client.Packets.{RpcClient}
use msrpce_dcerpc.Client.Receive.Queue.{Queue, queue_transport}
use msrpce_dcerpc.Client.Receive.Reassembly.{Part, length-encode_response}
use msrpce_dcerpc.Client.Call.{call_raw}
use msrpce_dcerpc.Client.Bind.{bind_with_contexts_inner}
use msrpce_dcerpc.Client.Conversation.{read_conversation}
use msrpce_dcerpc.NcacnNp.{pipe_transport}
use msrpce_dcerpc.NcacnNp.Framing.{wires, stream}
use msrpce_dcerpc.NcacnNp.Simulation.{Carries, pipe_transport-Simulates}
use msrpce_dcerpc.NcacnNp.Conversation.{conversation_over_pipe}
use msrpce_dcerpc.Tests.Crates.{test_ndr, test_uuid, TestUuid, test_provider, TestProvider}
use msrpce_dcerpc.Tests.Bind.{
  context, context-IsWireContext, accepting, ack_of, answer, answer-Accepts, ack-IsWireAck,
}
use msrpce_dcerpc.Tests.Client.{first_part, first_part-AreOpen, last_part, last_part-IsPart}
use msrpce_dcerpc.Tests.Handshake.{bind_pdu, bind_pdu_made, bind_pdu_fits, ack_fits}
use msrpce_dcerpc.Tests.Duplex.{Duplex, duplex_pipe, duplex_pipe-IsByteStream}

abbrev unread : Duplex → Bytes
unread d = d.to_read

abbrev given : Duplex → Bytes
given d = d.written

-- The queue and the pipe that hold some packets.
abbrev memory : List PduPacket → Queue
memory ps = record { incoming = wires ps; sent = [] }

abbrev channel : List PduPacket → Duplex
channel ps = record { to_read = stream ps []; written = [] }

carried :
    (ps : List PduPacket) → All IsWirePacket ps → Carries unread given (memory ps) (channel ps)
carried ps w = record { packets = ps; fit = w; queued = refl; to_read = refl; written = refl }

abbrev ack_packet : PduPacket
ack_packet =
    from_body_with_flags Kind.bind_ack 1 3 (wire_ack (ack_of (accepting ∷ [])) (0 ∷ 0 ∷ []) 0 0 0)

abbrev part_packet : Part → PduPacket
part_packet p = from_body_with_flags Kind.response 2 p.flags (encode_response p.pdu)

abbrev response_packets : List PduPacket
response_packets = part_packet first_part ∷ part_packet last_part ∷ []

response_packets-IsWirePacket : All IsWirePacket response_packets
response_packets-IsWirePacket = (
  from_body_with_flags-IsWirePacket Kind.response 2 1 (encode_response first_part.pdu) (omega arith)
      (omega arith) (omega (arith, length-encode_response first_part.pdu)),
  (
    from_body_with_flags-IsWirePacket Kind.response 2 2 (encode_response last_part.pdu)
        (omega arith) (omega arith) (omega (arith, length-encode_response last_part.pdu)),
    tt,
  ),
)

delivered-IsWirePacket : All IsWirePacket (ack_packet ∷ response_packets)
delivered-IsWirePacket = (
  from_body_with_flags-IsWirePacket Kind.bind_ack 1 3
      (wire_ack (ack_of (accepting ∷ [])) (0 ∷ 0 ∷ []) 0 0 0) (omega arith) (omega arith) ack_fits,
  response_packets-IsWirePacket,
)

conversation_over_pipe_example :
    (c k : RpcClient Duplex TestProvider) × (t : Duplex) × (sent : List Bytes)
    × (bind_with_contexts_inner ⦃tr = pipe_transport⦄
          (context ∷ [])
          none
          (channel (ack_packet ∷ response_packets))
        ≡ (ok c, t))
    × (call_raw TestUuid ⦃tr = pipe_transport⦄ 2 7 (1 ∷ 2 ∷ 3 ∷ []) c
        ≡ (ok (10 ∷ 11 ∷ 12 ∷ 13 ∷ []), k))
    × Carries unread given (record { incoming = []; sent = sent }) k.transport
    × (read_conversation sent ≡ ok (context ∷ [], 1 ∷ 2 ∷ 3 ∷ []))
conversation_over_pipe_example =
    conversation_over_pipe TestUuid unread given duplex_pipe-IsByteStream context [] bind_pdu
      (ack_of (accepting ∷ [])) (0 ∷ 0 ∷ []) 0 0 0 3 answer 7 (1 ∷ 2 ∷ 3 ∷ []) (first_part ∷ [])
      last_part [] 0 (channel (ack_packet ∷ response_packets))
      (carried (ack_packet ∷ response_packets) delivered-IsWirePacket) (context-IsWireContext, tt)
      (omega arith) bind_pdu_made bind_pdu_fits ack-IsWireAck (omega arith) ack_fits answer-Accepts
      (omega arith) (omega arith) (omega arith) first_part-AreOpen last_part-IsPart refl refl

pipe_transport-Simulates_example :
    Simulates (Carries unread given) queue_transport (pipe_transport {S = Duplex})
pipe_transport-Simulates_example = pipe_transport-Simulates unread given duplex_pipe-IsByteStream
