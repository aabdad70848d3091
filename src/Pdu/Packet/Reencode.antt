-- ===== src/Pdu/Packet/Reencode.antt =====
-- `PduPacket::encode` after `PduPacket::decode` gives the fragment back, with its padding zeroed.
use msrpce_dcerpc.Base.{◌+◌, Bytes, IsBytes, length, length-append, replicate, ap}
use msrpce_dcerpc.Base.{ok, ◌≡◌, refl, arith, ◌++◌, append_assoc, Option, none, some, ◌∙◌}
use msrpce_dcerpc.Crates.{NdrCrate}
use msrpce_dcerpc.Pdu.Header.{encode_header}
use msrpce_dcerpc.Pdu.Header.RoundTrip.{length-encode_header}
use msrpce_dcerpc.Pdu.Trailer.{SecurityTrailer}
use msrpce_dcerpc.Pdu.Trailer.RoundTrip.{length-encode_trailer}
use msrpce_dcerpc.Pdu.Packet.{
  PduPacket, trailer_bytes, trailer_room, fragment_length, stamp, encode_packet, decode_packet,
}
use msrpce_dcerpc.Pdu.Packet.Layout.{Layout, Paired, label_bytes, pad_length, decode_packet-Layout}

-- Padding and trailer as they are written.
trailer_parts :
    (tr : Option SecurityTrailer) → trailer_bytes tr ≡ replicate (pad_length tr) 0 ++ label_bytes tr
unfolding trailer_bytes
trailer_parts none = refl
trailer_parts (some t) = refl

room_parts :
    (tr : Option SecurityTrailer) → trailer_room tr ≡ pad_length tr + length (label_bytes tr)
unfolding trailer_room
room_parts none = omega arith
room_parts (some t) = omega (arith, length-encode_trailer t)

module _ ⦃n : NdrCrate⦄ (bytes : Bytes) (p : PduPacket) (l : Layout bytes p) where
  whole_length : fragment_length p ≡ length bytes
  unfolding fragment_length
  whole_length = omega (
    arith,
    room_parts p.security_trailer,
    ap (λ (ys : Bytes). length ys) l.whole,
    length-encode_header p.header,
    length-append (encode_header p.header)
        (p.body ++ (l.pad ++ (label_bytes p.security_trailer ++ p.auth_value))),
    length-append p.body (l.pad ++ (label_bytes p.security_trailer ++ p.auth_value)),
    length-append l.pad (label_bytes p.security_trailer ++ p.auth_value),
    length-append (label_bytes p.security_trailer) p.auth_value,
    l.padded,
  )

  stamp_same : stamp p ≡ p.header
  unfolding stamp
  stamp_same = ground (arith, whole_length, l.frag, l.auth, l.head.frag, l.head.auth)

  encode-Paired :
      (tr : Option SecurityTrailer)
      → p.security_trailer ≡ tr
      → Paired tr (length p.auth_value)
      → encode_packet p
        ≡ ok (
            encode_header (stamp p)
            ++ (p.body ++ (trailer_bytes p.security_trailer ++ p.auth_value)))
  unfolding encode_packet
  encode-Paired none e pr = ground (arith, whole_length, l.frag, l.head.frag)
  encode-Paired (some t) e pr =
      ground (arith, whole_length, l.frag, l.head.frag, l.auth, l.head.auth)

  reencoded :
      encode_packet p
      ≡ ok (
          encode_header p.header
          ++ (p.body
              ++ (replicate (pad_length p.security_trailer) 0
                  ++ (label_bytes p.security_trailer ++ p.auth_value))))
  reencoded =
      encode-Paired p.security_trailer refl l.paired
      ∙ rw
          (
            stamp_same,
            trailer_parts p.security_trailer,
            append_assoc (replicate (pad_length p.security_trailer) 0)
                (label_bytes p.security_trailer) p.auth_value,
          )
          refl

-- Encoding what has been decoded from bytes gives the same fragment with its padding set to zeros:
-- with `front`, `pad` and `back` the fragment before, in and after the padding.
pub encode_packet-decode_packet :
    ⦃n : NdrCrate⦄ (bytes : Bytes) (p : PduPacket)
    → IsBytes bytes
    → decode_packet bytes ≡ ok p
    → (front : Bytes) × (pad : Bytes) × (back : Bytes) × (bytes ≡ front ++ (pad ++ back))
      × (length pad ≡ pad_length p.security_trailer)
      × (encode_packet p ≡ ok (front ++ (replicate (length pad) 0 ++ back)))
encode_packet-decode_packet bytes p bs d =
    let l = decode_packet-Layout bytes p bs d in
    let front = encode_header p.header ++ p.body in
    let back = label_bytes p.security_trailer ++ p.auth_value in
    (
      front,
      l.pad,
      back,
      l.whole ∙ rw (append_assoc (encode_header p.header) p.body (l.pad ++ back)) refl,
      l.padded,
      reencoded bytes p l
          ∙ rw
              (
                l.padded,
                append_assoc (encode_header p.header) p.body
                    (replicate (pad_length p.security_trailer) 0 ++ back),
              )
              refl,
    )
