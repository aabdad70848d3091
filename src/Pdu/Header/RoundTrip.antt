-- ===== src/Pdu/Header/RoundTrip.antt =====
-- `PduHeader::encode` and `PduHeader::decode` are inverse to one another.
use msrpce_dcerpc.Base.{ℕ, Bytes, IsBytes, length}
use msrpce_dcerpc.Base.{ok, err, Returns, ◌∷◌, ◌++◌, ◌≡◌, refl, inl, inr, arith}
use msrpce_dcerpc.Base.{uncons16, drop}
use native.Mathlib.Decide.{dec_lt}
use msrpce_dcerpc.Base.{u16_le_bytes_round, u16_be_bytes_round}
use msrpce_dcerpc.Base.{
  u16_from_le_bytes-IsU16, u16_from_be_bytes-IsU16, u32_from_le_bytes-IsU32,
  u32_from_be_bytes-IsU32, lt→ltb, ◌<◌, ◌≤◌,
}
use msrpce_dcerpc.Error.{invalid_pdu}
use msrpce_dcerpc.Pdu.Kind.Codes.{pdu_type_try_from-Returns}
use msrpce_dcerpc.Base.{
  u16_from_le_bytes_round, u16_from_be_bytes_round, u32_from_le_bytes_round,
  u32_from_be_bytes_round, ◌⊎◌, String,
}
use msrpce_dcerpc.Base.{u32_le_bytes_round, u32_be_bytes_round}
use msrpce_dcerpc.Crates.{ByteOrder, little, big, NdrCrate}
use msrpce_dcerpc.Pdu.Kind.Codes.{pdu_type_try_from-pdu_type_code, pdu_type_code_of_ok}
use msrpce_dcerpc.Pdu.Header.{PduHeader, IsWireHeader, encode_header, decode_header}

module _ ⦃n : NdrCrate⦄ where
  decode_in_order :
      (h : PduHeader) (rest : Bytes) (w : IsWireHeader h) (o : ByteOrder)
      → n.drep_from_bytes h.packed_drep ≡ inr o
      → decode_header (encode_header h ++ rest) ≡ ok h
  unfolding decode_header encode_header
  decode_in_order h rest w little e = ground (
    arith,
    pdu_type_try_from-pdu_type_code h.ptype,
    u16_le_bytes_round h.frag_length,
    u16_le_bytes_round h.auth_length,
    u32_le_bytes_round h.call_id,
  )
  decode_in_order h rest w big e = ground (
    arith,
    pdu_type_try_from-pdu_type_code h.ptype,
    u16_be_bytes_round h.frag_length,
    u16_be_bytes_round h.auth_length,
    u32_be_bytes_round h.call_id,
  )

  -- A header that fits the wire is read back from its bytes, whatever follows them.
  pub decode_header-encode_header :
      (h : PduHeader) (rest : Bytes)
      → IsWireHeader h
      → decode_header (encode_header h ++ rest) ≡ ok h
  decode_header-encode_header h rest w = decode_in_order h rest w w.order w.known

  module _ (a0 a1 a2 a3 b0 b1 b2 b3 c0 c1 c2 c3 d0 d1 d2 d3 : ℕ) (rest : Bytes) where
    abbrev whole : Bytes
    whole = a0 ∷ a1 ∷ a2 ∷ a3 ∷ b0 ∷ b1 ∷ b2 ∷ b3 ∷ c0 ∷ c1 ∷ c2 ∷ c3 ∷ d0 ∷ d1 ∷ d2 ∷ d3 ∷ rest

    sixteen_in_order :
        (h : PduHeader) (o : String ⊎ ByteOrder)
        → IsBytes whole
        → n.drep_from_bytes (b0, b1, b2, b3) ≡ o
        → decode_header whole ≡ ok h
        → encode_header h ++ rest ≡ whole
    unfolding decode_header encode_header
    sixteen_in_order h (inl m) bs e d = ground (arith)
    sixteen_in_order h (inr little) bs e d = ground (
      arith,
      pdu_type_code_of_ok a2 {t = h.ptype},
      u16_from_le_bytes_round c0 c1,
      u16_from_le_bytes_round c2 c3,
      u32_from_le_bytes_round d0 d1 d2 d3,
    )
    sixteen_in_order h (inr big) bs e d = ground (
      arith,
      pdu_type_code_of_ok a2 {t = h.ptype},
      u16_from_be_bytes_round c0 c1,
      u16_from_be_bytes_round c2 c3,
      u32_from_be_bytes_round d0 d1 d2 d3,
    )

    sixteen-IsWireHeader :
        (h : PduHeader) (o : String ⊎ ByteOrder)
        → IsBytes whole
        → n.drep_from_bytes (b0, b1, b2, b3) ≡ o
        → decode_header whole ≡ ok h
        → IsWireHeader h
    unfolding decode_header
    sixteen-IsWireHeader h (inl m) bs e d = absurd (ground arith)
    sixteen-IsWireHeader h (inr little) bs e d = record {
      version = ground arith;
      minor = ground arith;
      flags = ground arith;
      drep = ground arith;
      frag = ground (arith, u16_from_le_bytes-IsU16 c0 c1);
      auth = ground (arith, u16_from_le_bytes-IsU16 c2 c3);
      call = ground (arith, u32_from_le_bytes-IsU32 d0 d1 d2 d3);
      order = little;
      known = ground arith;
    }
    sixteen-IsWireHeader h (inr big) bs e d = record {
      version = ground arith;
      minor = ground arith;
      flags = ground arith;
      drep = ground arith;
      frag = ground (arith, u16_from_be_bytes-IsU16 c0 c1);
      auth = ground (arith, u16_from_be_bytes-IsU16 c2 c3);
      call = ground (arith, u32_from_be_bytes-IsU32 d0 d1 d2 d3);
      order = big;
      known = ground arith;
    }

    sixteen-Returns :
        (o : String ⊎ ByteOrder)
        → n.drep_from_bytes (b0, b1, b2, b3) ≡ o
        → Returns (decode_header whole)
    unfolding decode_header
    sixteen-Returns (inl m) e = ground arith
    sixteen-Returns (inr little) e = ground (arith, pdu_type_try_from-Returns a2)
    sixteen-Returns (inr big) e = ground (arith, pdu_type_try_from-Returns a2)

  too_short :
      (bytes : Bytes)
      → length bytes < 16
      → decode_header bytes ≡ err (invalid_pdu "common header requires 16 bytes")
  unfolding decode_header
  too_short bytes h = rw (lt→ltb (length bytes) 16 h) refl

  -- `PduHeader::decode` returns on every input.
  pub decode_header-Returns : (bytes : Bytes) → Returns (decode_header bytes)
  decode_header-Returns bytes = elim (dec_lt (length bytes) 16) [
    | yes h ↦ rw (too_short bytes h) tt
    | no h ↦
        uncons16 (λ bs. Returns (decode_header bs))
          (λ a0 a1 a2 a3 b0 b1 b2 b3 c0 c1 c2 c3 d0 d1 d2 d3 t.
            sixteen-Returns a0 a1 a2 a3 b0 b1 b2 b3 c0 c1 c2 c3 d0 d1 d2 d3 t _ refl)
          bytes (omega arith)
  ]

  -- What holds of every header that has been decoded from bytes.
  abbrev pub Decoded : PduHeader → Bytes → Type 0
  Decoded h bytes =
      IsWireHeader h × (16 ≤ length bytes) × (encode_header h ++ drop 16 bytes ≡ bytes)

  -- A header decoded from bytes is one that fits the wire, and it is written as the sixteen bytes
  -- that it was read from.
  pub encode_header-decode_header :
      (bytes : Bytes) (h : PduHeader) → IsBytes bytes → decode_header bytes ≡ ok h → Decoded h bytes
  encode_header-decode_header bytes h bs d = elim (dec_lt (length bytes) 16) [
    | yes k ↦ absurd (cc (too_short bytes k))
    | no k ↦
        uncons16 (λ ys. IsBytes ys → decode_header ys ≡ ok h → Decoded h ys)
          (λ a0 a1 a2 a3 b0 b1 b2 b3 c0 c1 c2 c3 d0 d1 d2 d3 t bs' d'. (
            sixteen-IsWireHeader a0 a1 a2 a3 b0 b1 b2 b3 c0 c1 c2 c3 d0 d1 d2 d3 t h _ bs' refl d',
            omega arith,
            sixteen_in_order a0 a1 a2 a3 b0 b1 b2 b3 c0 c1 c2 c3 d0 d1 d2 d3 t h _ bs' refl d',
          ))
          bytes (omega arith) bs d
  ]

  pub length-encode_header : (h : PduHeader) → length (encode_header h) ≡ 16
  unfolding encode_header
  length-encode_header h = ground arith
