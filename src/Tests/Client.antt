-- ===== src/Tests/Client.antt =====
-- The client at concrete inputs: a queue of PDUs, a provider, and a client for each.
use msrpce_dcerpc.Base.{
  ◌+◌, ◌<◌, ◌≤◌, Bytes, length, IsU32, [], ◌∷◌, All, ok, err, ◌≡◌, ◌≢◌, refl, arith,
}
use msrpce_dcerpc.Base.{true, false, none, some}
use msrpce_dcerpc.Error.{Error, invalid_pdu}
use msrpce_dcerpc.Auth.{connect, packet_privacy}
use msrpce_dcerpc.Pdu.Kind.{response, fault, bind_ack}
use msrpce_dcerpc.Pdu.Kind
use msrpce_dcerpc.Pdu.Bodies.{FaultPdu, encode_fault}
use msrpce_dcerpc.Pdu.Packet.{PduPacket, encode_packet, stamp, from_body_with_flags}
use msrpce_dcerpc.Pdu.Packet.RoundTrip.{wire}
use msrpce_dcerpc.Pdu.Packet.FromBody.{received, decode_packet-from_body_with_flags}
use msrpce_dcerpc.Client.Packets.{RpcClient, is_above_connect, authenticated_packet, auth_pfc_flags}
use msrpce_dcerpc.Client.Authenticated.{CarriesToken, authenticated_packet-CarriesToken}
use msrpce_dcerpc.Client.Send.{send_request_fragments}
use msrpce_dcerpc.Client.Send.Chunks.{fragments}
use msrpce_dcerpc.Client.Send.Step.{fragment_wires, embed, send_all}
use msrpce_dcerpc.Client.Send.Refines.{send_request_fragments_lem, send_request_fragments_refused}
use msrpce_dcerpc.Client.Send.Peer.{read_requests, requests, request_stubs, read_requests_lem}
use msrpce_dcerpc.Client.Receive.{recv_response_fragments}
use msrpce_dcerpc.Client.Receive.Queue.{Queue, queue_transport}
use msrpce_dcerpc.Client.Receive.Reassembly.{Part, IsPart, AreOpen, part_wire, waiting}
use msrpce_dcerpc.Client.Receive.Outcomes.{
  recv_response_fragments-response, recv_response_fragments-fault, recv_response_fragments-other,
  recv_response_fragments_mismatch, recv_response_fragments_headless,
}
use msrpce_dcerpc.Client.Call.{call_raw}
use msrpce_dcerpc.Client.Call.Ids.{nth_call_id, nth_call_id_distinct}
use msrpce_dcerpc.Client.Call.Exchange.{called, call_raw-response}
use msrpce_dcerpc.Tests.Crates.{test_ndr, test_uuid, TestUuid, test_provider, TestProvider}

abbrev pub queue : Queue
queue = record { incoming = []; sent = [] }

-- A client without a provider, with fragments of 26 bytes, two of them for the stub.
abbrev pub client : RpcClient Queue TestProvider
client = record {
  transport = queue;
  context_id = 3;
  call_id = 1;
  max_xmit_frag = 26;
  auth_provider = none;
}

abbrev provider : TestProvider
provider = record { level = connect; calls = 0 }

abbrev private_client : RpcClient Queue TestProvider
private_client = record client {
  auth_provider = some (record { level = packet_privacy; calls = 0 });
}

abbrev pub first_part : Part
first_part = record {
  flags = 1;
  pdu = record { alloc_hint = 4; ctx_id = 3; cancel_count = 0; stub_data = 10 ∷ 11 ∷ [] };
}

abbrev pub last_part : Part
last_part = record {
  flags = 2;
  pdu = record { alloc_hint = 4; ctx_id = 3; cancel_count = 0; stub_data = 12 ∷ 13 ∷ [] };
}

part :
    (p : Part)
    → p.flags < 256
    → p.pdu.alloc_hint < 4294967296
    → p.pdu.ctx_id < 65536
    → length p.pdu.stub_data + 24 < 65536
    → IsPart p
part p f h c l = record { small = f; fields = record { hint = h; ctx = c }; fits = l }

pub first_part-AreOpen : AreOpen false (first_part ∷ [])
first_part-AreOpen =
    (part first_part (omega arith) (omega arith) (omega arith) (omega arith), refl, refl, tt)

pub last_part-IsPart : IsPart last_part
last_part-IsPart = part last_part (omega arith) (omega arith) (omega arith) (omega arith)

abbrev a_fault : FaultPdu
a_fault = record {
  alloc_hint = 0;
  ctx_id = 3;
  cancel_count = 0;
  status = 0x1c01_0002;
  stub_data = [];
}

privacy_above : is_above_connect packet_privacy ≡ true
unfolding is_above_connect
privacy_above = refl

connect_not_above : is_above_connect connect ≡ false
unfolding is_above_connect
connect_not_above = refl

call_raw-response_example :
    call_raw TestUuid 2 7
      (1 ∷ 2 ∷ 3 ∷ [])
      (waiting client (part_wire 1 first_part ∷ part_wire 1 last_part ∷ []))
    ≡ (
      ok (10 ∷ 11 ∷ 12 ∷ 13 ∷ []),
      called TestUuid client (omega arith) tt (omega arith) (omega arith) 7 (1 ∷ 2 ∷ 3 ∷ []) [],
    )
call_raw-response_example =
    call_raw-response TestUuid client (omega arith) tt (omega arith) (omega arith) 7
      (1 ∷ 2 ∷ 3 ∷ []) (first_part ∷ []) last_part [] 0 first_part-AreOpen last_part-IsPart refl
      refl

send_request_fragments_lem_example :
    send_request_fragments TestUuid 1 7 (1 ∷ 2 ∷ 3 ∷ []) client
    ≡ embed TestUuid client
        (send_all (fragment_wires TestUuid client 1 7 3 (fragments 2 (1 ∷ 2 ∷ 3 ∷ []))) queue)
send_request_fragments_lem_example =
    send_request_fragments_lem TestUuid client 1 7 (1 ∷ 2 ∷ 3 ∷ []) tt (omega arith) (omega arith)

read_requests_lem_example :
    (read_requests (fragment_wires TestUuid client 1 7 3 (fragments 2 (1 ∷ 2 ∷ 3 ∷ [])))
      ≡ ok (requests TestUuid client 1 7 3 (fragments 2 (1 ∷ 2 ∷ 3 ∷ []))))
    × (request_stubs (requests TestUuid client 1 7 3 (fragments 2 (1 ∷ 2 ∷ 3 ∷ [])))
        ≡ 1 ∷ 2 ∷ 3 ∷ [])
    × All
        (λ (b : Bytes). length b ≤ 26)
        (fragment_wires TestUuid client 1 7 3 (fragments 2 (1 ∷ 2 ∷ 3 ∷ [])))
read_requests_lem_example =
    read_requests_lem TestUuid client 1 7 (1 ∷ 2 ∷ 3 ∷ []) (omega arith) (omega arith) (omega arith)
      (omega arith) (omega arith)

send_request_fragments_refused_example :
    (e : Error) × (send_request_fragments TestUuid 1 7 (1 ∷ 2 ∷ []) private_client
      ≡ (err e, private_client))
send_request_fragments_refused_example =
    send_request_fragments_refused TestUuid private_client
      (record { level = packet_privacy; calls = 0 }) refl privacy_above 1 7 (1 ∷ 2 ∷ [])
      (omega arith)

recv_response_fragments-response_example :
    recv_response_fragments 2 1
      (waiting client (part_wire 1 first_part ∷ part_wire 1 last_part ∷ []))
    ≡ (ok (10 ∷ 11 ∷ 12 ∷ 13 ∷ []), client)
recv_response_fragments-response_example =
    recv_response_fragments-response client 1 (omega arith) tt (first_part ∷ []) last_part [] 0
      first_part-AreOpen last_part-IsPart refl refl

recv_response_fragments-fault_example :
    recv_response_fragments 2 1 (
      waiting client (
        part_wire 1 first_part ∷ wire (from_body_with_flags fault 1 3 (encode_fault a_fault)) ∷ []))
    ≡ (err (Error.fault 0x1c01_0002), client)
recv_response_fragments-fault_example =
    recv_response_fragments-fault client 1 (omega arith) tt (first_part ∷ []) 3 a_fault [] 0
      first_part-AreOpen (omega arith)
      (record { hint = omega arith; ctx = omega arith; code = omega arith }) (omega arith)

recv_response_fragments-other_example :
    recv_response_fragments 2 1 (
      waiting client
        (part_wire 1 first_part ∷ wire (from_body_with_flags bind_ack 1 3 (9 ∷ [])) ∷ []))
    ≡ (err (invalid_pdu "expected response or fault PDU"), client)
recv_response_fragments-other_example =
    recv_response_fragments-other client 1 (omega arith) tt (first_part ∷ []) bind_ack 3 (9 ∷ []) []
      0 first_part-AreOpen (omega arith) (omega arith) (λ e. cc) (λ e. cc)

other_id : (received bind_ack 2 3 (9 ∷ [])).header.call_id ≢ 1
unfolding from_body_with_flags stamp
other_id e = omega (arith, e)

recv_response_fragments_mismatch_example :
    recv_response_fragments 2 1 (
      waiting client
        (part_wire 1 first_part ∷ wire (from_body_with_flags bind_ack 2 3 (9 ∷ [])) ∷ []))
    ≡ (err (invalid_pdu "response call id does not match request"), client)
recv_response_fragments_mismatch_example =
    recv_response_fragments_mismatch client 1 (omega arith) tt (first_part ∷ [])
      (wire (from_body_with_flags bind_ack 2 3 (9 ∷ []))) (received bind_ack 2 3 (9 ∷ [])) [] 0
      first_part-AreOpen
      (decode_packet-from_body_with_flags bind_ack 2 3 (9 ∷ []) (omega arith) (omega arith)
        (omega arith))
      other_id

nth_call_id_distinct_example :
    (nth_call_id 4 client ≢ nth_call_id 9 client)
    × (0 < nth_call_id 9 client)
    × IsU32 (nth_call_id 9 client)
nth_call_id_distinct_example = nth_call_id_distinct client 4 9 refl (omega arith) (omega arith)

authenticated_packet-CarriesToken_example :
    (p : PduPacket) × (bytes : Bytes) × (authenticated_packet Kind.auth3 1
        (auth_pfc_flags provider)
        (9 ∷ [])
        provider
        (4 ∷ 5 ∷ [])
      ≡ ok p)
    × (encode_packet p ≡ ok bytes)
    × CarriesToken Kind.auth3 1 (9 ∷ []) (4 ∷ 5 ∷ []) provider bytes
authenticated_packet-CarriesToken_example =
    authenticated_packet-CarriesToken Kind.auth3 1 (9 ∷ []) (5 ∷ []) 4 provider (λ e. cc e)
      (λ e. cc e) (omega arith) (omega arith) (omega arith)

recv_response_fragments_headless_example :
    recv_response_fragments 1 1 (waiting client (part_wire 1 last_part ∷ []))
    ≡ (err (invalid_pdu "response is missing first fragment"), client)
recv_response_fragments_headless_example =
    recv_response_fragments_headless client 1 (omega arith) tt last_part [] 0 last_part-IsPart refl
