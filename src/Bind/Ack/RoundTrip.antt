-- ===== src/Bind/Ack/RoundTrip.antt =====
-- `BindAckPdu::decode` reads a bind acknowledgement from its wire form: the lengths and the group,
-- the secondary address, padding to a multiple of four, and the result list.
use msrpce_dcerpc.Base.{ℕ, zero, suc, ◌+◌, ◌%◌, ◌/◌, ◌<◌, Bytes, IsU16, IsU32, length, All}
use msrpce_dcerpc.Base.{ok, ◌≡◌, refl, arith, List, [], ◌∷◌, ◌++◌, append_assoc, append-nil}
use msrpce_dcerpc.Base.{slice_middle, length-append, index, u16_to_le_bytes, u32_to_le_bytes}
use msrpce_dcerpc.Base.{u16_le_bytes_round, u32_le_bytes_round}
use msrpce_dcerpc.Crates.{UuidCrate}
use msrpce_dcerpc.Error.{Error, PresentationResultCode, acceptance, PresentationRejectReason}
use msrpce_dcerpc.Error.{presentation_result_code, presentation_reject_reason_code}
use msrpce_dcerpc.Syntax.{encode_syntax}
use msrpce_dcerpc.Syntax.RoundTrip.{length-encode_syntax}
use msrpce_dcerpc.Bind.Context.RoundTrip.{decode_syntax_exact, IsWireSyntax}
use msrpce_dcerpc.Bind.Ack.{
  PresentationResult, BindAckPdu, decode_result, decode_results, decode_result_list,
  decode_bind_ack, align, result_code_try_from, presentation_reason_try_from,
}
use msrpce_dcerpc.Bind.Ack.Total.{align_lem}

index-append :
    (xs : Bytes) (b : ℕ) (ys : Bytes) (i : ℕ)
    → length xs ≡ i
    → index {E = Error} (xs ++ (b ∷ ys)) i ≡ ok b
index-append [] b ys zero h = refl
index-append [] b ys (suc i) h = absurd (omega arith)
index-append (x ∷ xs) b ys zero h = absurd (omega arith)
index-append (x ∷ xs) b ys (suc i) h = index-append xs b ys i (omega arith)

pub result_code_round :
    (c : PresentationResultCode)
    → (result_code_try_from (presentation_result_code c) ≡ ok c) × (presentation_result_code c < 4)
unfolding result_code_try_from presentation_result_code
result_code_round acceptance = (refl, omega arith)
result_code_round _ = (refl, omega arith)

pub reject_reason_round :
    (c : PresentationRejectReason)
    → (presentation_reason_try_from (presentation_reject_reason_code c) ≡ ok c)
      × (presentation_reject_reason_code c < 4)
unfolding presentation_reason_try_from presentation_reject_reason_code
reject_reason_round PresentationRejectReason.reason_not_specified = (refl, omega arith)
reject_reason_round _ = (refl, omega arith)

module _ {Uuid : Type 0} ⦃u : UuidCrate Uuid⦄ where
  -- The 24 bytes of one result.
  abbrev pub wire_result : PresentationResult Uuid → Bytes
  wire_result r =
      u16_to_le_bytes (presentation_result_code r.result)
      ++ (u16_to_le_bytes (presentation_reject_reason_code r.reason)
          ++ encode_syntax r.transfer_syntax)

  abbrev pub wire_results : List (PresentationResult Uuid) → Bytes
  wire_results [] = []
  wire_results (r ∷ rs) = wire_result r ++ wire_results rs

  abbrev pub IsWireResult : PresentationResult Uuid → Type 0
  IsWireResult r = IsWireSyntax r.transfer_syntax

  length-wire_result : (r : PresentationResult Uuid) → length (wire_result r) ≡ 24
  length-wire_result r = omega (arith, length-encode_syntax r.transfer_syntax)

  decode_result-wire_result :
      (r : PresentationResult Uuid) → IsWireResult r → decode_result (wire_result r) ≡ ok r
  unfolding decode_result
  decode_result-wire_result r w =
      let c = presentation_result_code r.result in
      let d = presentation_reject_reason_code r.reason in
      let head : Bytes = c % 256 ∷ c / 256 % 256 ∷ d % 256 ∷ d / 256 % 256 ∷ [] in
      ground (
        arith,
        result_code_round r.result,
        reject_reason_round r.reason,
        u16_le_bytes_round c,
        u16_le_bytes_round d,
        append-nil (encode_syntax r.transfer_syntax),
        slice_middle {E = Error} head (encode_syntax r.transfer_syntax) [] 4 24,
        length-encode_syntax r.transfer_syntax,
        decode_syntax_exact r.transfer_syntax w,
      )

  decode_results-wire_results :
      (rs : List (PresentationResult Uuid)) (before : Bytes) (offset : ℕ)
      → length before ≡ offset
      → All IsWireResult rs
      → decode_results (length rs) (before ++ wire_results rs) offset
        ≡ ok (rs, length (before ++ wire_results rs))
  unfolding decode_results
  decode_results-wire_results [] before offset l w = rw (append-nil before, l) refl
  decode_results-wire_results (r ∷ rs) before offset l w =
      let again =
        decode_results-wire_results rs (before ++ wire_result r) (offset + 24)
          (omega (arith, length-append before (wire_result r), length-wire_result r)) w.1 in
      let again' = rw (append_assoc before (wire_result r) (wire_results rs)) at again in
      ground (
        arith,
        length-append before (wire_result r ++ wire_results rs),
        length-append (wire_result r) (wire_results rs),
        length-wire_result r,
        slice_middle {E = Error} before (wire_result r) (wire_results rs) offset (offset + 24),
        decode_result-wire_result r w.0,
        again',
      )

  -- The result list, with the three bytes behind its count.
  decode_result_list-wire :
      (rs : List (PresentationResult Uuid)) (before : Bytes) (x y z offset : ℕ)
      → length before ≡ offset
      → All IsWireResult rs
      → decode_result_list (before ++ (length rs ∷ x ∷ y ∷ z ∷ wire_results rs)) offset ≡ ok rs
  unfolding decode_result_list
  decode_result_list-wire rs before x y z offset l w =
      let head : Bytes = length rs ∷ x ∷ y ∷ z ∷ [] in
      let loop =
        decode_results-wire_results rs (before ++ head) (offset + 4)
          (omega (arith, length-append before head)) w in
      ground (
        arith,
        length-append before (length rs ∷ x ∷ y ∷ z ∷ wire_results rs),
        index-append before (length rs) (x ∷ y ∷ z ∷ wire_results rs) offset l,
        rw (append_assoc before head (wire_results rs)) at loop,
      )

  -- An acknowledgement on the wire; `pad` and the reserved bytes `x`, `y` and `z` are the server's.
  abbrev pub wire_ack : BindAckPdu Uuid → Bytes → ℕ → ℕ → ℕ → Bytes
  wire_ack a pad x y z =
      u16_to_le_bytes a.max_xmit_frag
      ++ (u16_to_le_bytes a.max_recv_frag
          ++ (u32_to_le_bytes a.assoc_group_id
              ++ (u16_to_le_bytes (length a.secondary_addr)
                  ++ (a.secondary_addr
                      ++ (pad ++ (length a.results ∷ x ∷ y ∷ z ∷ wire_results a.results))))))

  pub record IsWireAck (a : BindAckPdu Uuid) (pad : Bytes) : Type 0 where
    pub xmit : IsU16 a.max_xmit_frag
    pub recv : IsU16 a.max_recv_frag
    pub group : IsU32 a.assoc_group_id
    pub addr : IsU16 (length a.secondary_addr)
    pub padded : (10 + length a.secondary_addr + length pad) % 4 ≡ 0
    pub short : length pad < 4
    pub results : All IsWireResult a.results

  -- A bind acknowledgement whose fields are in their ranges is read from its wire form, in which
  -- padding brings the result list to a multiple of four, whatever the padding and the reserved
  -- bytes hold.
  pub decode_bind_ack-wire_ack :
      (a : BindAckPdu Uuid) (pad : Bytes) (x y z : ℕ)
      → IsWireAck a pad
      → decode_bind_ack (wire_ack a pad x y z) ≡ ok a
  unfolding decode_bind_ack
  decode_bind_ack-wire_ack a pad x y z w =
      let l = length a.secondary_addr in
      let xm = a.max_xmit_frag in
      let rc = a.max_recv_frag in
      let g = a.assoc_group_id in
      let head : Bytes =
        xm % 256
        ∷ xm / 256 % 256
        ∷ rc % 256
        ∷ rc / 256 % 256
        ∷ g % 256
        ∷ g / 256 % 256
        ∷ g / 65536 % 256
        ∷ g / 16777216 % 256
        ∷ l % 256
        ∷ l / 256 % 256
        ∷ [] in
      let list : Bytes = length a.results ∷ x ∷ y ∷ z ∷ wire_results a.results in
      let at : length (head ++ (a.secondary_addr ++ pad)) ≡ align (10 + l) = omega (
        arith,
        length-append head (a.secondary_addr ++ pad),
        length-append a.secondary_addr pad,
        align_lem (10 + l),
        w.padded,
        w.short,
      ) in
      let read =
        decode_result_list-wire a.results (head ++ (a.secondary_addr ++ pad)) x y z (align (10 + l))
          at w.results in
      ground (
        arith,
        u16_le_bytes_round xm,
        u16_le_bytes_round rc,
        u16_le_bytes_round l,
        u32_le_bytes_round g,
        length-append a.secondary_addr (pad ++ list),
        length-append pad list,
        slice_middle {E = Error} head a.secondary_addr (pad ++ list) 10 (10 + l),
        rw
            (
              append_assoc head (a.secondary_addr ++ pad) list,
              append_assoc a.secondary_addr pad list,
            )
            at read,
      )
