-- ===== src/Bind/Ack/Total.antt =====
-- The decoders of bind acknowledgements return on every input.
use native.Mathlib.Decide.{dec_lt}
use msrpce_dcerpc.Base.{
  ℕ, zero, suc, ◌+◌, ◌-◌, ◌%◌, ◌≤◌, ◌<◌, Bytes, length, take, drop, uncons4, uncons8, lt→ltb,
}
use msrpce_dcerpc.Base.{ok, Returns, ◌≡◌, refl, arith, [], ◌∷◌, index, u16_from_le_bytes}
use msrpce_dcerpc.Base.{slice_in}
use msrpce_dcerpc.Crates.{UuidCrate}
use msrpce_dcerpc.Error.{Error}
use msrpce_dcerpc.Syntax.RoundTrip.{decode_syntax-Returns}
use msrpce_dcerpc.Pdu.Kind.{reject_reason_try_from}
use msrpce_dcerpc.Bind.Ack.{
  decode_result, decode_results, decode_result_list, decode_bind_ack, align, result_code_try_from,
  presentation_reason_try_from, decode_bind_nak,
}

-- The loop finds the next multiple of four.
pub align_lem : (o : ℕ) → (align o % 4 ≡ 0) × (o ≤ align o) × (align o < o + 4)
unfolding align
align_lem o = ground arith

-- An index within the input is read.
index_in : (bytes : Bytes) (i : ℕ) → i < length bytes → (b : ℕ) × (index {E = Error} bytes i ≡ ok b)
index_in [] i h = absurd (omega arith)
index_in (b ∷ bs) zero h = (b, refl)
index_in (b ∷ bs) (suc i) h = index_in bs i (omega arith)

result_code_try_from-Returns : (v : ℕ) → Returns (result_code_try_from v)
unfolding result_code_try_from
result_code_try_from-Returns v = ground arith

presentation_reason_try_from-Returns : (v : ℕ) → Returns (presentation_reason_try_from v)
unfolding presentation_reason_try_from
presentation_reason_try_from-Returns v = ground arith

reject_reason_try_from-Returns : (v : ℕ) → Returns (reject_reason_try_from v)
unfolding reject_reason_try_from
reject_reason_try_from-Returns v = ground arith

pub decode_bind_nak-Returns : (bytes : Bytes) → Returns (decode_bind_nak bytes)
unfolding decode_bind_nak
decode_bind_nak-Returns [] = tt
decode_bind_nak-Returns (a ∷ []) = tt
decode_bind_nak-Returns (a ∷ b ∷ t) =
    ground (arith, reject_reason_try_from-Returns (u16_from_le_bytes a b))

module _ (Uuid : Type 0) ⦃u : UuidCrate Uuid⦄ where
  result_four-Returns :
      (a b c d : ℕ) (t : Bytes) → Returns (decode_result {Uuid = Uuid} (a ∷ b ∷ c ∷ d ∷ t))
  unfolding decode_result
  result_four-Returns a b c d t = ground (
    arith,
    result_code_try_from-Returns (u16_from_le_bytes a b),
    presentation_reason_try_from-Returns (u16_from_le_bytes c d),
    slice_in {E = Error} (a ∷ b ∷ c ∷ d ∷ t) 4 24,
    decode_syntax-Returns Uuid (take (24 - 4) t),
  )

  result_short-Returns :
      (bytes : Bytes) → length bytes < 24 → Returns (decode_result {Uuid = Uuid} bytes)
  unfolding decode_result
  result_short-Returns bytes h = rw (lt→ltb (length bytes) 24 h) tt

  decode_result-Returns : (bytes : Bytes) → Returns (decode_result {Uuid = Uuid} bytes)
  decode_result-Returns bytes = elim (dec_lt (length bytes) 24) [
    | yes h ↦ result_short-Returns bytes h
    | no h ↦
        uncons4 (λ ys. Returns (decode_result {Uuid = Uuid} ys)) result_four-Returns bytes
          (omega arith)
  ]

  decode_results-Returns :
      (n : ℕ) (bytes : Bytes) (offset : ℕ) → Returns (decode_results {Uuid = Uuid} n bytes offset)
  unfolding decode_results
  decode_results-Returns zero bytes offset = tt
  decode_results-Returns (suc n) bytes offset = ground (
    arith,
    slice_in {E = Error} bytes offset (offset + 24),
    decode_result-Returns (take (offset + 24 - offset) (drop offset bytes)),
    decode_results-Returns n bytes (offset + 24),
  )

  result_list_missing :
      (bytes : Bytes) (offset : ℕ)
      → length bytes < offset + 4
      → Returns (decode_result_list {Uuid = Uuid} bytes offset)
  unfolding decode_result_list
  result_list_missing bytes offset h = ground arith

  result_list_at :
      (bytes : Bytes) (offset count : ℕ)
      → index {E = Error} bytes offset ≡ ok count
      → Returns (decode_result_list {Uuid = Uuid} bytes offset)
  unfolding decode_result_list
  result_list_at bytes offset count e =
      ground (arith, decode_results-Returns count bytes (offset + 4))

  decode_result_list-Returns :
      (bytes : Bytes) (offset : ℕ) → Returns (decode_result_list {Uuid = Uuid} bytes offset)
  decode_result_list-Returns bytes offset = elim (dec_lt (length bytes) (offset + 4)) [
    | yes h ↦ result_list_missing bytes offset h
    | no h ↦
        let (count, e) = index_in bytes offset (omega arith) in result_list_at bytes offset count e
  ]

  ack_long-Returns :
      (a0 a1 a2 a3 b0 b1 b2 b3 c0 c1 c2 c3 : ℕ) (t : Bytes)
      → let bytes = a0 ∷ a1 ∷ a2 ∷ a3 ∷ b0 ∷ b1 ∷ b2 ∷ b3 ∷ c0 ∷ c1 ∷ c2 ∷ c3 ∷ t in
        Returns (decode_bind_ack {Uuid = Uuid} bytes)
  unfolding decode_bind_ack
  ack_long-Returns a0 a1 a2 a3 b0 b1 b2 b3 c0 c1 c2 c3 t =
      let bytes : Bytes = a0 ∷ a1 ∷ a2 ∷ a3 ∷ b0 ∷ b1 ∷ b2 ∷ b3 ∷ c0 ∷ c1 ∷ c2 ∷ c3 ∷ t in
      let end = 10 + u16_from_le_bytes c0 c1 in
      ground
        (arith, decode_result_list-Returns bytes (align end), slice_in {E = Error} bytes 10 end)

  ack_short-Returns :
      (bytes : Bytes) → length bytes < 12 → Returns (decode_bind_ack {Uuid = Uuid} bytes)
  unfolding decode_bind_ack
  ack_short-Returns bytes h = rw (lt→ltb (length bytes) 12 h) tt

  -- `BindAckPdu::decode` returns on every input, whatever its bytes and its length.
  pub decode_bind_ack-Returns : (bytes : Bytes) → Returns (decode_bind_ack {Uuid = Uuid} bytes)
  decode_bind_ack-Returns bytes = elim (dec_lt (length bytes) 12) [
    | yes h ↦ ack_short-Returns bytes h
    | no h ↦
        uncons8 (λ ys. 12 ≤ length ys → Returns (decode_bind_ack {Uuid = Uuid} ys))
          (λ a0 a1 a2 a3 b0 b1 b2 b3 t k.
            uncons4
              (λ ys.
                Returns
                  (decode_bind_ack {Uuid = Uuid} (a0 ∷ a1 ∷ a2 ∷ a3 ∷ b0 ∷ b1 ∷ b2 ∷ b3 ∷ ys)))
              (λ c0 c1 c2 c3 v. ack_long-Returns a0 a1 a2 a3 b0 b1 b2 b3 c0 c1 c2 c3 v) t
              (omega arith))
          bytes (omega arith) (omega arith)
  ]
