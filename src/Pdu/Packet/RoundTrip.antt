-- ===== src/Pdu/Packet/RoundTrip.antt =====
-- `PduPacket::decode` reads back what `PduPacket::encode` wrote.
use msrpce_dcerpc.Base.{ℕ, ◌+◌, ◌-◌, ◌<◌, Bytes, length, replicate}
use msrpce_dcerpc.Base.{
  ok, ◌≡◌, ◌≢◌, refl, arith, slice, slice_in, slice_middle, slice_end, [], ◌∷◌, ◌++◌,
}
use msrpce_dcerpc.Base.{
  length-append, length-replicate, append_assoc, append-nil, Option, none, some,
}
use msrpce_dcerpc.Crates.{NdrCrate}
use msrpce_dcerpc.Error.{Error}
use msrpce_dcerpc.Pdu.Header.{PduHeader, IsWireHeader, encode_header}
use msrpce_dcerpc.Pdu.Header.RoundTrip.{decode_header-encode_header, length-encode_header}
use msrpce_dcerpc.Pdu.Trailer.{SecurityTrailer, IsWireTrailer, encode_trailer, decode_trailer}
use msrpce_dcerpc.Pdu.Trailer.RoundTrip.{length-encode_trailer, decode_trailer-encode_trailer}
use msrpce_dcerpc.Pdu.Packet.{
  PduPacket, trailer_bytes, trailer_room, fragment_length, stamp, find_trailer, split_body,
  encode_packet, decode_content, decode_packet,
}

module _ ⦃n : NdrCrate⦄ (h : PduHeader) (head body : Bytes) (sixteen : length head ≡ 16) where
  -- A fragment without an auth value.
  pub decode_plain :
      (h.frag_length ≡ 16 + length body)
      → h.auth_length ≡ 0
      → decode_content h (head ++ body)
        ≡ ok (record { header = h; body = body; security_trailer = none; auth_value = [] })
  unfolding decode_content split_body
  decode_plain len no_auth = ground (
    arith,
    length-append head body,
    slice_middle {E = Error} head body [] 16 h.frag_length,
    append-nil body,
    slice_in {E = Error} (head ++ body) h.frag_length h.frag_length,
  )

  module _ (pad label auth : Bytes) (t : SecurityTrailer) (eight : length label ≡ 8)
      (read : decode_trailer label ≡ ok t) (padded : length pad ≡ t.auth_pad_length) where
    abbrev pub whole : Bytes
    whole = head ++ (body ++ (pad ++ (label ++ auth)))

    length-whole : length whole ≡ 16 + length body + length pad + 8 + length auth
    length-whole = omega (
      arith,
      length-append head (body ++ (pad ++ (label ++ auth))),
      length-append body (pad ++ (label ++ auth)),
      length-append pad (label ++ auth),
      length-append label auth,
    )

    slice-label :
        (lo hi : ℕ)
        → lo ≡ 16 + length body + length pad
        → hi ≡ lo + 8
        → slice {E = Error} whole lo hi ≡ ok label
    slice-label lo hi el eh =
        rw
          (
            ← append_assoc body pad (label ++ auth),
            ← append_assoc head (body ++ pad) (label ++ auth),
          )
          (slice_middle (head ++ (body ++ pad)) label auth lo hi
            (omega (arith, length-append head (body ++ pad), length-append body pad)) (omega arith))

    slice-auth :
        (lo hi : ℕ)
        → lo ≡ 16 + length body + length pad + 8
        → hi ≡ lo + length auth
        → slice {E = Error} whole lo hi ≡ ok auth
    slice-auth lo hi el eh =
        rw
          (
            ← append_assoc pad label auth,
            ← append_assoc body (pad ++ label) auth,
            ← append_assoc head (body ++ (pad ++ label)) auth,
          )
          (slice_end (head ++ (body ++ (pad ++ label))) auth lo hi
            (omega (
              arith,
              length-append head (body ++ (pad ++ label)),
              length-append body (pad ++ label),
              length-append pad label,
            ))
            (omega arith))

    find_label :
        (frag al : ℕ)
        → frag ≡ length whole
        → al ≡ length auth
        → find_trailer whole frag al ≡ ok (16 + length body, some t)
    unfolding find_trailer
    find_label frag al ef ea = ground (arith, length-whole, slice-label (frag - al - 8) (frag - al))

    -- A fragment with a trailer and an auth value.
    pub decode_with_auth :
        h.frag_length ≡ length whole
        → h.auth_length ≡ length auth
        → h.auth_length ≢ 0
        → decode_content h whole
          ≡ ok (record { header = h; body = body; security_trailer = some t; auth_value = auth })
    unfolding decode_content split_body
    decode_with_auth ef ea some_auth = ground (
      arith,
      length-whole,
      find_label h.frag_length h.auth_length,
      slice_middle {E = Error} head body (pad ++ (label ++ auth)) 16 (16 + length body),
      slice-auth (h.frag_length - h.auth_length) h.frag_length,
    )

-- A trailer goes with an auth value that is not empty, and with no other.
abbrev pub HasAuth : Option SecurityTrailer → Bytes → Type 0
HasAuth none [] = Unit
HasAuth none (x ∷ xs) = ⊥
HasAuth (some t) [] = ⊥
HasAuth (some t) (x ∷ xs) = IsWireTrailer t

module _ ⦃n : NdrCrate⦄ where
  -- A packet that fits the wire: each part in its range, and at most 65535 bytes in all.
  pub record IsWirePacket (p : PduPacket) : Type 0 where
    pub head : IsWireHeader p.header
    pub paired : HasAuth p.security_trailer p.auth_value
    pub fits : fragment_length p < 65536

  -- The bytes of a packet.
  abbrev pub wire : PduPacket → Bytes
  wire p = encode_header (stamp p) ++ (p.body ++ (trailer_bytes p.security_trailer ++ p.auth_value))

  pub stamp-IsWireHeader : (p : PduPacket) → IsWireHeader p.header → IsWireHeader (stamp p)
  unfolding stamp
  stamp-IsWireHeader p w = record {
    version = w.version;
    minor = w.minor;
    flags = w.flags;
    drep = w.drep;
    frag = omega arith;
    auth = omega arith;
    call = w.call;
    order = w.order;
    known = w.known;
  }

  length-trailer_bytes : (tr : Option SecurityTrailer) → length (trailer_bytes tr) ≡ trailer_room tr
  unfolding trailer_bytes trailer_room
  length-trailer_bytes none = refl
  length-trailer_bytes (some t) = omega (
    arith,
    length-append (replicate t.auth_pad_length 0) (encode_trailer t),
    length-replicate {A = ℕ} t.auth_pad_length 0,
    length-encode_trailer t,
  )

  pub length-wire : (p : PduPacket) → length (wire p) ≡ fragment_length p
  unfolding fragment_length
  length-wire p = omega (
    arith,
    length-append (encode_header (stamp p))
        (p.body ++ (trailer_bytes p.security_trailer ++ p.auth_value)),
    length-append p.body (trailer_bytes p.security_trailer ++ p.auth_value),
    length-append (trailer_bytes p.security_trailer) p.auth_value,
    length-encode_header (stamp p),
    length-trailer_bytes p.security_trailer,
  )

  module _ (h : PduHeader) (body : Bytes) where
    abbrev packet : Option SecurityTrailer → Bytes → PduPacket
    packet tr av = record { header = h; body = body; security_trailer = tr; auth_value = av }

    encode_fits :
        (tr : Option SecurityTrailer) (av : Bytes)
        → HasAuth tr av
        → fragment_length (packet tr av) < 65536
        → encode_packet (packet tr av) ≡ ok (wire (packet tr av))
    unfolding encode_packet
    encode_fits none [] paired fits = ground arith
    encode_fits none (x ∷ xs) paired fits = absurd paired
    encode_fits (some t) [] paired fits = absurd paired
    encode_fits (some t) (x ∷ xs) paired fits = ground arith

    decode_stamped :
        (tr : Option SecurityTrailer) (av : Bytes)
        → HasAuth tr av
        → fragment_length (packet tr av) < 65536
        → decode_content (stamp (packet tr av)) (wire (packet tr av))
          ≡ ok (record (packet tr av) { header = stamp (packet tr av) })
    unfolding fragment_length stamp trailer_bytes
    decode_stamped none [] paired fits =
        let s = stamp (packet none []) in
        rw (append-nil body)
          (decode_plain s (encode_header s) body (length-encode_header s) (omega arith) refl)
    decode_stamped none (x ∷ xs) paired fits = absurd paired
    decode_stamped (some t) [] paired fits = absurd paired
    decode_stamped (some t) (x ∷ xs) paired fits =
        let s = stamp (packet (some t) (x ∷ xs)) in
        let pad : Bytes = replicate t.auth_pad_length 0 in
        let label = encode_trailer t in
        rw (append_assoc pad label (x ∷ xs)) (
          decode_with_auth s (encode_header s) body (length-encode_header s) pad label (x ∷ xs) t
            (length-encode_trailer t) (decode_trailer-encode_trailer t paired)
            (length-replicate t.auth_pad_length 0)
            (omega (
              arith,
              length-encode_trailer t,
              length-replicate {A = ℕ} t.auth_pad_length 0,
              length-whole s (encode_header s) body (length-encode_header s) pad label (x ∷ xs) t
                  (length-encode_trailer t) (decode_trailer-encode_trailer t paired)
                  (length-replicate t.auth_pad_length 0),
            ))
            (omega arith) (omega arith))

  -- A packet that fits the wire is encoded, into as many bytes as its lengths say, and those bytes
  -- are decoded into the packet, with the header's lengths filled in.
  pub decode_packet-encode_packet :
      (p : PduPacket)
      → IsWirePacket p
      → (encode_packet p ≡ ok (wire p))
        × (decode_packet (wire p) ≡ ok (record p { header = stamp p }))
        × (length (wire p) ≡ fragment_length p)
  decode_packet-encode_packet p w = (
    encode_fits p.header p.body p.security_trailer p.auth_value w.paired w.fits,
    unfold decode_packet in
        rw
          (decode_header-encode_header (stamp p)
            (p.body ++ (trailer_bytes p.security_trailer ++ p.auth_value))
            (stamp-IsWireHeader p w.head))
          (decode_stamped p.header p.body p.security_trailer p.auth_value w.paired w.fits),
    length-wire p,
  )
