-- ===== src/Pdu/Packet/FromBody.antt =====
-- The packets that are made from a body: they fit the wire, and the peer reads them back.
use msrpce_dcerpc.Base.{ℕ, ◌+◌, ◌<◌, Bytes, length, IsU8, IsU32, ok, ◌≡◌, refl, arith}
use msrpce_dcerpc.Crates.{NdrCrate, little}
use msrpce_dcerpc.Pdu.Kind.{PduType}
use msrpce_dcerpc.Pdu.Header.{new_header}
use msrpce_dcerpc.Pdu.Packet.{
  PduPacket, stamp, decode_packet, from_body_with_flags, fragment_length, trailer_room,
}
use msrpce_dcerpc.Pdu.Packet.RoundTrip.{IsWirePacket, wire, decode_packet-encode_packet}

module _ ⦃n : NdrCrate⦄ where
  pub from_body_with_flags-IsWirePacket :
      (ptype : PduType) (call_id flags : ℕ) (body : Bytes)
      → IsU32 call_id
      → IsU8 flags
      → length body + 16 < 65536
      → IsWirePacket (from_body_with_flags ptype call_id flags body)
  unfolding from_body_with_flags fragment_length trailer_room new_header
  from_body_with_flags-IsWirePacket ptype call_id flags body call small fits = record {
    head = record {
      version = refl;
      minor = omega arith;
      flags = small;
      drep = n.windows_default-IsArray4;
      frag = omega arith;
      auth = omega arith;
      call = call;
      order = little;
      known = n.windows_default-little;
    };
    paired = tt;
    fits = omega arith;
  }

  -- What the peer decodes.
  abbrev pub received : PduType → ℕ → ℕ → Bytes → PduPacket
  received ptype call_id flags body = record (from_body_with_flags ptype call_id flags body) {
    header = stamp (from_body_with_flags ptype call_id flags body);
  }

  pub decode_packet-from_body_with_flags :
      (ptype : PduType) (call_id flags : ℕ) (body : Bytes)
      → IsU32 call_id
      → IsU8 flags
      → length body + 16 < 65536
      → decode_packet (wire (from_body_with_flags ptype call_id flags body))
        ≡ ok (received ptype call_id flags body)
  decode_packet-from_body_with_flags ptype call_id flags body call small fits =
      (decode_packet-encode_packet (from_body_with_flags ptype call_id flags body)
        (from_body_with_flags-IsWirePacket ptype call_id flags body call small fits)).1
