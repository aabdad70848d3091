-- ===== src/Client/Authenticated.antt =====
-- The packets that carry a provider's token.
use msrpce_dcerpc.Base.{
  ℕ, ◌+◌, ◌%◌, ◌<◌, Bytes, length, IsU32, ok, ◌∷◌, ◌++◌, ◌≡◌, ◌≢◌, refl, arith, false, some,
  replicate, length-replicate, length-append, append_assoc,
}
use msrpce_dcerpc.Crates.{NdrCrate, little}
use msrpce_dcerpc.Auth.{AuthProvider, AuthLevel, connect, packet_integrity, packet_privacy}
use msrpce_dcerpc.Pdu.Kind.{PduType}
use msrpce_dcerpc.Pdu.Header.{new_header, encode_header}
use msrpce_dcerpc.Pdu.Header.RoundTrip.{length-encode_header}
use msrpce_dcerpc.Pdu.Trailer.{SecurityTrailer, encode_trailer}
use msrpce_dcerpc.Pdu.Packet.{
  PduPacket, encode_packet, decode_packet, stamp, with_security_trailer, fragment_length,
  trailer_room, trailer_bytes,
}
use msrpce_dcerpc.Pdu.Packet.RoundTrip.{IsWirePacket, wire, decode_packet-encode_packet}
use msrpce_dcerpc.Client.Packets.{
  authenticated_packet, security_trailer, is_above_connect, auth_padding_len, auth_pfc_flags,
}

-- The padding brings the trailer to a multiple of four bytes, and takes three bytes at most.
pub auth_padding_len_lem :
    (body_len : ℕ)
    → ((body_len + auth_padding_len body_len) % 4 ≡ 0) × (auth_padding_len body_len < 4)
unfolding auth_padding_len
auth_padding_len_lem body_len = (omega arith, omega arith)

not_above :
    (level : AuthLevel)
    → level ≢ packet_integrity
    → level ≢ packet_privacy
    → is_above_connect level ≡ false
unfolding is_above_connect
not_above AuthLevel.none i p = refl
not_above connect i p = refl
not_above packet_integrity i p = absurd (i refl)
not_above packet_privacy i p = absurd (p refl)

module _ {P : Type 0} ⦃a : AuthProvider P⦄ ⦃n : NdrCrate⦄ where
  token_packet-IsWirePacket :
      (ptype : PduType) (call_id : ℕ) (body token : Bytes) (b : ℕ) (provider : P)
      → IsU32 call_id
      → IsU32 (a.auth_context_id provider)
      → length body + length token < 65508
      → IsWirePacket (
          with_security_trailer
            (new_header ptype (auth_pfc_flags provider) call_id)
            body
            (security_trailer provider (auth_padding_len (length body)))
            (b ∷ token))
  unfolding with_security_trailer new_header security_trailer auth_padding_len fragment_length
      trailer_room
  token_packet-IsWirePacket ptype call_id body token b provider call ctx fits = record {
    head = record {
      version = refl;
      minor = omega arith;
      flags = omega arith;
      drep = n.windows_default-IsArray4;
      frag = omega arith;
      auth = omega arith;
      call = call;
      order = little;
      known = n.windows_default-little;
    };
    paired = record { pad = omega arith; reserved = omega arith; context = ctx };
    fits = omega arith;
  }

  -- What a peer finds in the bytes of a packet with a token: the call, the body and the token, and a
  -- trailer that names the provider's type, level and context, in front of the token and at a multiple
  -- of four bytes, behind less than four bytes of padding.
  pub record CarriesToken (ptype : PduType) (call_id : ℕ) (body token : Bytes) (provider : P)
      (bytes : Bytes) : Type 0 where
    pub packet : PduPacket
    pub trailer : SecurityTrailer
    pub front : Bytes
    pub read : decode_packet bytes ≡ ok packet
    pub same_type : packet.header.ptype ≡ ptype
    pub same_call : packet.header.call_id ≡ call_id
    pub whole : packet.header.pfc_flags ≡ 0x03
    pub same_body : packet.body ≡ body
    pub same_token : packet.auth_value ≡ token
    pub found : packet.security_trailer ≡ some trailer
    pub auth_type : trailer.auth_type ≡ a.auth_type provider
    pub auth_level : trailer.auth_level ≡ a.auth_level provider
    pub auth_context : trailer.auth_context_id ≡ a.auth_context_id provider
    pub auth_reserved : trailer.auth_reserved ≡ 0
    pub layout : bytes ≡ front ++ (encode_trailer trailer ++ token)
    pub aligned : length front % 4 ≡ 0
    pub tight : length front < 16 + length body + 4

  -- With a level that is neither `PacketIntegrity` nor `PacketPrivacy`, ids of 32 bits, a token that is
  -- not empty, and a body and a token of fewer than 65509 bytes together, `authenticated_packet` makes
  -- a packet that encodes, and of whose bytes the peer reads the call in one fragment, the same body,
  -- the same token and a trailer with the type, level and context of the provider. The trailer stands
  -- in front of the token, at a multiple of four bytes, with less than four bytes of padding before it.
  pub authenticated_packet-CarriesToken :
      (ptype : PduType) (call_id : ℕ) (body token : Bytes) (b : ℕ) (provider : P)
      → a.auth_level provider ≢ packet_integrity
      → a.auth_level provider ≢ packet_privacy
      → IsU32 call_id
      → IsU32 (a.auth_context_id provider)
      → length body + length token < 65508
      → (p : PduPacket) × (bytes : Bytes) × (authenticated_packet ptype call_id
            (auth_pfc_flags provider)
            body
            provider
            (b ∷ token)
          ≡ ok p)
        × (encode_packet p ≡ ok bytes)
        × CarriesToken ptype call_id body (b ∷ token) provider bytes
  unfolding authenticated_packet with_security_trailer security_trailer stamp new_header
      trailer_bytes
  authenticated_packet-CarriesToken ptype call_id body token b provider integrity privacy call ctx
        fits =
      let t = security_trailer provider (auth_padding_len (length body)) in
      let p =
        with_security_trailer (new_header ptype (auth_pfc_flags provider) call_id) body t
          (b ∷ token) in
      let (enc, dec, _) =
        decode_packet-encode_packet p
          (token_packet-IsWirePacket ptype call_id body token b provider call ctx fits) in
      let pad : Bytes = replicate (auth_padding_len (length body)) 0 in
      let front = encode_header (stamp p) ++ (body ++ pad) in
      let measured : length front ≡ 16 + length body + auth_padding_len (length body) = omega (
        arith,
        length-append (encode_header (stamp p)) (body ++ pad),
        length-append body pad,
        length-replicate {A = ℕ} (auth_padding_len (length body)) 0,
        length-encode_header (stamp p),
      ) in
      let (multiple, few) = auth_padding_len_lem (length body) in
      (
        p,
        wire p,
        rw (not_above (a.auth_level provider) integrity privacy) refl,
        enc,
        record {
          packet = record p { header = stamp p };
          trailer = t;
          front = front;
          read = dec;
          same_type = refl;
          same_call = refl;
          whole = refl;
          same_body = refl;
          same_token = refl;
          found = refl;
          auth_type = refl;
          auth_level = refl;
          auth_context = refl;
          auth_reserved = refl;
          layout =
              rw
                (
                  append_assoc pad (encode_trailer t) (b ∷ token),
                  append_assoc (encode_header (stamp p)) (body ++ pad)
                      (encode_trailer t ++ (b ∷ token)),
                  append_assoc body pad (encode_trailer t ++ (b ∷ token)),
                )
                refl;
          aligned = omega (arith, measured, multiple);
          tight = omega (arith, measured, few);
        },
      )
