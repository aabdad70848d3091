-- ===== src/Pdu/Packet/Total.antt =====
-- `PduPacket::decode` returns on every input: every slice that it takes lies in the input.
use msrpce_dcerpc.Base.{ℕ, ◌+◌, ◌-◌, ◌≤◌, Bytes, length, take, drop, ok, err, Returns}
use msrpce_dcerpc.Base.{◌≡◌, arith, slice_in, >>=-Returns, Option}
use native.Mathlib.Decide.{ℕ_discrete, dec_le}
use msrpce_dcerpc.Base.{Returns-cases, inl, inr}
use msrpce_dcerpc.Crates.{NdrCrate}
use msrpce_dcerpc.Error.{Error}
use msrpce_dcerpc.Pdu.Header.{PduHeader, decode_header}
use msrpce_dcerpc.Pdu.Header.RoundTrip.{decode_header-Returns}
use msrpce_dcerpc.Pdu.Trailer.{SecurityTrailer}
use msrpce_dcerpc.Pdu.Trailer.RoundTrip.{decode_trailer-Returns}
use msrpce_dcerpc.Pdu.Packet.{find_trailer, split_body, decode_content, decode_packet}

module _ (bytes : Bytes) (frag auth : ℕ) (len : length bytes ≡ frag) (fits : auth + 16 ≤ frag) where
  find_trailer-Returns : Returns (find_trailer bytes frag auth)
  unfolding find_trailer
  find_trailer-Returns = ground (
    arith,
    slice_in {E = Error} bytes (frag - auth - 8) (frag - auth),
    decode_trailer-Returns (take (frag - auth - (frag - auth - 8)) (drop (frag - auth - 8) bytes)),
  )

  find_trailer_bounds :
      (e : ℕ) (t : Option SecurityTrailer)
      → find_trailer bytes frag auth ≡ ok (e, t)
      → (16 ≤ e) × (e ≤ frag)
  unfolding find_trailer
  find_trailer_bounds e t h = ground (
    arith,
    slice_in {E = Error} bytes (frag - auth - 8) (frag - auth),
    decode_trailer-Returns (take (frag - auth - (frag - auth - 8)) (drop (frag - auth - 8) bytes)),
  )

  pub split_body-Returns : Returns (split_body bytes frag auth)
  split_body-Returns = unfold split_body in ground (arith, find_trailer-Returns)

  pub split_body_bounds :
      (e : ℕ) (t : Option SecurityTrailer)
      → split_body bytes frag auth ≡ ok (e, t)
      → (16 ≤ e) × (e ≤ frag)
  unfolding split_body
  split_body_bounds e t h = ground (arith, find_trailer_bounds e t)

module _ ⦃n : NdrCrate⦄ where
  -- Once the three lengths agree, both slices are in the input.
  after_split-Returns :
      (h : PduHeader) (bytes : Bytes) (e : ℕ) (t : Option SecurityTrailer)
      → length bytes ≡ h.frag_length
      → h.auth_length + 16 ≤ h.frag_length
      → split_body bytes h.frag_length h.auth_length ≡ ok (e, t)
      → Returns (decode_content h bytes)
  unfolding decode_content
  after_split-Returns h bytes e t len fits s = ground (
    arith,
    split_body_bounds bytes h.frag_length h.auth_length len fits e t,
    slice_in {E = Error} bytes 16 e,
    slice_in {E = Error} bytes (h.frag_length - h.auth_length) h.frag_length,
  )

  bad_lengths-Returns :
      (h : PduHeader) (bytes : Bytes)
      → ¬ ((length bytes ≡ h.frag_length) × (h.auth_length + 16 ≤ h.frag_length))
      → Returns (decode_content h bytes)
  unfolding decode_content
  bad_lengths-Returns h bytes bad = ground arith

  split_err-Returns :
      (h : PduHeader) (bytes : Bytes) (x : Error)
      → length bytes ≡ h.frag_length
      → h.auth_length + 16 ≤ h.frag_length
      → split_body bytes h.frag_length h.auth_length ≡ err x
      → Returns (decode_content h bytes)
  unfolding decode_content
  split_err-Returns h bytes x len fits s = ground arith

  pub good_lengths :
      (h : PduHeader) (bytes : Bytes)
      → Dec ((length bytes ≡ h.frag_length) × (h.auth_length + 16 ≤ h.frag_length))
  good_lengths h bytes = elim (ℕ_discrete (length bytes) h.frag_length) [
    | no k ↦ no (λ g. k g.0)
    | yes len ↦ elim (dec_le (h.auth_length + 16) h.frag_length) [
      | no k ↦ no (λ g. k g.1)
      | yes fits ↦ yes (len, fits)
    ]
  ]

  decode_content-Returns : (h : PduHeader) (bytes : Bytes) → Returns (decode_content h bytes)
  decode_content-Returns h bytes = elim (good_lengths h bytes) [
    | no bad ↦ bad_lengths-Returns h bytes bad
    | yes (len, fits) ↦
        elim (Returns-cases _ (split_body-Returns bytes h.frag_length h.auth_length len fits)) [
          | inl ((e, t), s) ↦ after_split-Returns h bytes e t len fits s
          | inr (x, s) ↦ split_err-Returns h bytes x len fits s
        ]
  ]

  -- `PduPacket::decode` returns on every input, whatever its bytes and its length.
  pub decode_packet-Returns : (bytes : Bytes) → Returns (decode_packet bytes)
  unfolding decode_packet
  decode_packet-Returns bytes =
      >>=-Returns (decode_header bytes) (λ h. decode_content h bytes) (decode_header-Returns bytes)
        (λ h e. decode_content-Returns h bytes)
