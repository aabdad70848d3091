-- ===== src/Examples/InMemory/Ack.antt =====
-- The acknowledgement that examples/in_memory_bind_call.rs writes, as the client reads it.
use msrpce_dcerpc.Base.{
  ℕ, zero, suc, ◌+◌, ◌-◌, ◌%◌, ◌<◌, Bytes, length, IsU16, IsU32, All, List, [], ◌∷◌, ◌++◌, ok, ◌≡◌,
  refl, arith, replicate, length-replicate, length-append, append_assoc, append-nil,
}
use msrpce_dcerpc.Base.{u16_to_le_bytes, u32_to_le_bytes}
use msrpce_dcerpc.Crates.{UuidCrate}
use msrpce_dcerpc.Bind.Ack.{PresentationResult, BindAckPdu, decode_bind_ack}
use msrpce_dcerpc.Bind.Ack.RoundTrip.{
  IsWireResult, IsWireAck, wire_ack, wire_results, decode_bind_ack-wire_ack,
}
use msrpce_dcerpc.Examples.InMemory.{push_padding, encode_results, encode_ack}

push_padding_lem :
    (rounds k : ℕ) (body : Bytes)
    → k < rounds
    → k < 4
    → (length body + k) % 4 ≡ 0
    → push_padding rounds body ≡ ok (body ++ replicate k 0)
unfolding push_padding
push_padding_lem zero k body h s m = absurd (omega arith)
push_padding_lem (suc rounds) zero body h s m = ground (arith, append-nil body)
push_padding_lem (suc rounds) (suc k) body h s m =
    let again =
      push_padding_lem rounds k (body ++ (0 ∷ [])) (omega arith) (omega arith)
        (omega (arith, length-append body (0 ∷ []))) in
    ground (arith, again, append_assoc body (0 ∷ []) (replicate k 0))

module _ {Uuid : Type 0} ⦃u : UuidCrate Uuid⦄ where
  -- The fields are in the ranges of the wire.
  pub record IsAck (a : BindAckPdu Uuid) : Type 0 where
    pub xmit : IsU16 a.max_xmit_frag
    pub recv : IsU16 a.max_recv_frag
    pub group : IsU32 a.assoc_group_id
    pub addr : IsU16 (length a.secondary_addr)
    pub count : length a.results < 256
    pub results : All IsWireResult a.results

  encode_results-wire_results :
      (rs : List (PresentationResult Uuid)) → encode_results rs ≡ wire_results rs
  unfolding encode_results
  encode_results-wire_results [] = refl
  encode_results-wire_results (r ∷ rs) = rw (encode_results-wire_results rs) refl

  -- The zeros that the loop adds.
  abbrev padding : BindAckPdu Uuid → Bytes
  padding a = replicate ((4 - (10 + length a.secondary_addr) % 4) % 4) 0

  padding-IsWireAck : (a : BindAckPdu Uuid) → IsAck a → IsWireAck a (padding a)
  padding-IsWireAck a w =
      let l = length-replicate {A = ℕ} ((4 - (10 + length a.secondary_addr) % 4) % 4) 0 in
      record {
        xmit = w.xmit;
        recv = w.recv;
        group = w.group;
        addr = w.addr;
        padded = omega (arith, l);
        short = omega (arith, l);
        results = w.results;
      }

  -- It writes the acknowledgement in its wire form.
  encode_ack-wire_ack :
      (a : BindAckPdu Uuid) → IsAck a → encode_ack a ≡ ok (wire_ack a (padding a) 0 0 0)
  unfolding encode_ack
  encode_ack-wire_ack a w =
      let l = length a.secondary_addr in
      let addr : l % 65536 ≡ l = omega (arith, w.addr) in
      let count : length a.results % 256 ≡ length a.results = omega (arith, w.count) in
      let head : Bytes =
        u16_to_le_bytes a.max_xmit_frag
        ++ (u16_to_le_bytes a.max_recv_frag
            ++ (u32_to_le_bytes a.assoc_group_id ++ u16_to_le_bytes l)) in
      let padded =
        push_padding_lem 4 ((4 - (10 + l) % 4) % 4) (head ++ a.secondary_addr) (omega arith)
          (omega arith) (omega arith) in
      rw
        (
          addr,
          count,
          padded,
          encode_results-wire_results a.results,
          append_assoc a.secondary_addr (padding a)
              (length a.results ∷ 0 ∷ 0 ∷ 0 ∷ wire_results a.results),
        )
        refl

  -- What the example's server writes as the body of an acknowledgement, `BindAckPdu::decode` reads
  -- back: the padding loop comes to its end, for every acknowledgement whose numbers are in their
  -- ranges and that has at most 255 results.
  pub decode_bind_ack-encode_ack :
      (a : BindAckPdu Uuid)
      → IsAck a
      → (bytes : Bytes) × (encode_ack a ≡ ok bytes) × (decode_bind_ack bytes ≡ ok a)
  decode_bind_ack-encode_ack a w = (
    wire_ack a (padding a) 0 0 0,
    encode_ack-wire_ack a w,
    decode_bind_ack-wire_ack a (padding a) 0 0 0 (padding-IsWireAck a w),
  )
