-- ===== src/Tests/Pdu.antt =====
-- Packets, headers, trailers and bodies at concrete inputs.
use msrpce_dcerpc.Base.{Bytes, length, replicate, IsBytes, [], ◌∷◌, ◌++◌, ok, ◌≡◌, refl, arith}
use msrpce_dcerpc.Base.{true, some, Returns}
use msrpce_dcerpc.Crates.{little}
use msrpce_dcerpc.Auth.{connect, win_nt}
use msrpce_dcerpc.Auth.{auth_level_code, auth_type_code}
use msrpce_dcerpc.Pdu.Kind.{response}
use msrpce_dcerpc.Pdu.Header.{PduHeader, IsWireHeader, encode_header, decode_header}
use msrpce_dcerpc.Pdu.Header.RoundTrip.{
  decode_header-encode_header, encode_header-decode_header, Decoded,
}
use msrpce_dcerpc.Pdu.Trailer.{SecurityTrailer, IsWireTrailer, encode_trailer}
use msrpce_dcerpc.Pdu.Trailer.RoundTrip.{}
use msrpce_dcerpc.Pdu.Bodies.{RequestPdu, encode_request, decode_request}
use msrpce_dcerpc.Pdu.Bodies.RoundTrip.{decode_request-encode_request}
use msrpce_dcerpc.Pdu.Packet.{
  PduPacket, stamp, fragment_length, trailer_room, trailer_bytes, encode_packet, decode_packet,
}
use msrpce_dcerpc.Pdu.Packet.RoundTrip.{IsWirePacket, wire, decode_packet-encode_packet}
use msrpce_dcerpc.Pdu.Packet.Reencode.{encode_packet-decode_packet}
use msrpce_dcerpc.Pdu.Packet.Total.{decode_packet-Returns}
use msrpce_dcerpc.Tests.Crates.{test_ndr, test_uuid, TestUuid, nil_uuid}

abbrev header : PduHeader
header = record {
  rpc_vers = 5;
  rpc_vers_minor = 0;
  ptype = response;
  pfc_flags = 3;
  packed_drep = (16, 0, 0, 0);
  frag_length = 16;
  auth_length = 0;
  call_id = 258;
}

header-IsWireHeader : IsWireHeader header
header-IsWireHeader = record {
  version = refl;
  minor = omega arith;
  flags = omega arith;
  drep = (omega arith, omega arith, omega arith, omega arith);
  frag = omega arith;
  auth = omega arith;
  call = omega arith;
  order = little;
  known = refl;
}

abbrev trailer : SecurityTrailer
trailer = record {
  auth_type = win_nt;
  auth_level = connect;
  auth_pad_length = 2;
  auth_reserved = 0;
  auth_context_id = 7;
}

trailer-IsWireTrailer : IsWireTrailer trailer
trailer-IsWireTrailer = record { pad = omega arith; reserved = omega arith; context = omega arith }

-- A body of two bytes, two bytes of padding and a token.
abbrev packet : PduPacket
packet = record {
  header = header;
  body = 1 ∷ 2 ∷ [];
  security_trailer = some trailer;
  auth_value = 8 ∷ 9 ∷ [];
}

packet-IsWirePacket : IsWirePacket packet
unfolding fragment_length trailer_room
packet-IsWirePacket = record {
  head = header-IsWireHeader;
  paired = trailer-IsWireTrailer;
  fits = omega arith;
}

wire-IsBytes : IsBytes (wire packet)
unfolding encode_header stamp trailer_bytes encode_trailer auth_type_code auth_level_code
wire-IsBytes = omega arith

packet_read : decode_packet (wire packet) ≡ ok (record packet { header = stamp packet })
packet_read = (decode_packet-encode_packet packet packet-IsWirePacket).1

decode_packet-encode_packet_example :
    (encode_packet packet ≡ ok (wire packet))
    × (decode_packet (wire packet) ≡ ok (record packet { header = stamp packet }))
    × (length (wire packet) ≡ fragment_length packet)
decode_packet-encode_packet_example = decode_packet-encode_packet packet packet-IsWirePacket

encode_packet-decode_packet_example :
    (front : Bytes) × (pad : Bytes) × (back : Bytes) × (wire packet ≡ front ++ (pad ++ back))
    × (length pad ≡ 2)
    × (encode_packet (record packet { header = stamp packet })
        ≡ ok (front ++ (replicate (length pad) 0 ++ back)))
encode_packet-decode_packet_example =
    encode_packet-decode_packet (wire packet) (record packet { header = stamp packet }) wire-IsBytes
      packet_read

decode_packet-Returns_example : Returns (decode_packet (5 ∷ 0 ∷ 2 ∷ []))
decode_packet-Returns_example = decode_packet-Returns (5 ∷ 0 ∷ 2 ∷ [])

decode_header-encode_header_example :
    decode_header (encode_header header ++ (1 ∷ 2 ∷ [])) ≡ ok header
decode_header-encode_header_example =
    decode_header-encode_header header (1 ∷ 2 ∷ []) header-IsWireHeader

header_wire-IsBytes : IsBytes (encode_header header ++ [])
unfolding encode_header
header_wire-IsBytes = omega arith

header_read : decode_header (encode_header header ++ []) ≡ ok header
header_read = decode_header-encode_header header [] header-IsWireHeader

encode_header-decode_header_example : Decoded header (encode_header header ++ [])
encode_header-decode_header_example =
    encode_header-decode_header (encode_header header ++ []) header header_wire-IsBytes header_read

abbrev request : RequestPdu TestUuid
request = record {
  alloc_hint = 3;
  ctx_id = 1;
  opnum = 7;
  object = some nil_uuid;
  stub_data = 1 ∷ 2 ∷ 3 ∷ [];
}

decode_request-encode_request_example : decode_request (encode_request request) true ≡ ok request
decode_request-encode_request_example =
    decode_request-encode_request request
      (record { hint = omega arith; ctx = omega arith; op = omega arith })
