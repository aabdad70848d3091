-- ===== src/Bind/Ack.antt =====
-- `BindAckPdu`, `BindNakPdu` and `accepted_context` of src/bind.rs.
pub mod Accept
pub mod Total
pub mod RoundTrip
use msrpce_dcerpc.Base.{ℕ, zero, suc, ◌+◌, ◌%◌, Bytes, length, ok, err}
use msrpce_dcerpc.Base.{
  ◌>>=◌, ◌>>◌, fail_if, index, slice, ltb, ◌==◌, not, List, [], ◌∷◌, get_elem?,
}
use msrpce_dcerpc.Base.{Bool, true, false, Option, none, some, if◌then◌else◌}
use msrpce_dcerpc.Base.{u16_from_le_bytes, u32_from_le_bytes}
use msrpce_dcerpc.Crates.{UuidCrate}
use msrpce_dcerpc.Error.{Error, Result, invalid_pdu, presentation_context_rejected}
use msrpce_dcerpc.Error.{PresentationResultCode, acceptance, user_rejection, provider_rejection}
use msrpce_dcerpc.Error.{negotiate_ack, PresentationRejectReason, RejectReason}
use msrpce_dcerpc.Syntax.{SyntaxId, decode_syntax}
use msrpce_dcerpc.Pdu.Kind.{reject_reason_try_from}
use msrpce_dcerpc.Bind.Context.{PresentationContext}

-- `PresentationResultCode::try_from`
unfoldable pub result_code_try_from : ℕ → Result PresentationResultCode
result_code_try_from value =
    if value == 0
    then ok acceptance
    else if value == 1
    then ok user_rejection
    else if value == 2
    then ok provider_rejection
    else if value == 3
    then ok negotiate_ack
    else err (invalid_pdu "unknown presentation result code")

-- `PresentationRejectReason::try_from`
unfoldable pub presentation_reason_try_from : ℕ → Result PresentationRejectReason
presentation_reason_try_from value =
    if value == 0
    then ok PresentationRejectReason.reason_not_specified
    else if value == 1
    then ok PresentationRejectReason.abstract_syntax_not_supported
    else if value == 2
    then ok PresentationRejectReason.proposed_transfer_syntax_not_supported
    else if value == 3
    then ok PresentationRejectReason.local_limit_exceeded
    else err (invalid_pdu "unknown presentation reject reason")

pub record PresentationResult (Uuid : Type 0) : Type 0 where
  pub result : PresentationResultCode
  pub reason : PresentationRejectReason
  pub transfer_syntax : SyntaxId Uuid

pub record AcceptedContext (Uuid : Type 0) : Type 0 where
  pub context_id : ℕ
  pub transfer_syntax : SyntaxId Uuid

pub record BindAckPdu (Uuid : Type 0) : Type 0 where
  pub max_xmit_frag : ℕ
  pub max_recv_frag : ℕ
  pub assoc_group_id : ℕ
  pub secondary_addr : Bytes
  pub results : List (PresentationResult Uuid)

-- `while !offset.is_multiple_of(4) { offset += 1; }`; three rounds are enough.
unfoldable pub align_loop : ℕ → ℕ → ℕ
align_loop zero offset = offset
align_loop (suc rounds) offset =
    let next = align_loop rounds (offset + 1) in if offset % 4 == 0 then offset else next

unfoldable pub align : ℕ → ℕ
unfolding align_loop
align = align_loop 3

-- `BindNakPdu::decode`
unfoldable pub decode_bind_nak : Bytes → Result RejectReason
decode_bind_nak bytes = do
  fail_if (ltb (length bytes) 2) (invalid_pdu "bind nak body requires a reject reason")
  reject_reason_try_from (u16_from_le_bytes (← index bytes 0) (← index bytes 1))

module _ {Uuid : Type 0} ⦃u : UuidCrate Uuid⦄ where
  -- `PresentationResult::decode`
  unfoldable pub decode_result : Bytes → Result (PresentationResult Uuid)
  decode_result bytes = do
    fail_if (ltb (length bytes) 24) (invalid_pdu "presentation result requires 24 bytes")
    result ← result_code_try_from (u16_from_le_bytes (← index bytes 0) (← index bytes 1))
    reason ← presentation_reason_try_from (u16_from_le_bytes (← index bytes 2) (← index bytes 3))
    transfer_syntax ← decode_syntax (← slice bytes 4 24)
    ok (record { result = result; reason = reason; transfer_syntax = transfer_syntax })

  -- The loop of `BindAckPdu::decode`, with the offset at which it ends.
  unfoldable pub decode_results : ℕ → Bytes → ℕ → Result (List (PresentationResult Uuid) × ℕ)
  decode_results zero bytes offset = ok ([], offset)
  decode_results (suc n) bytes offset = do
    fail_if (ltb (length bytes) (offset + 24)) (invalid_pdu "bind ack result list is truncated")
    r ← decode_result (← slice bytes offset (offset + 24))
    (rs, end) ← decode_results n bytes (offset + 24)
    ok (r ∷ rs, end)

  -- `BindAckPdu::decode`, from the result list at `offset` on.
  unfoldable pub decode_result_list : Bytes → ℕ → Result (List (PresentationResult Uuid))
  decode_result_list bytes offset = do
    fail_if (ltb (length bytes) (offset + 4)) (invalid_pdu "bind ack result list is missing")
    result_count ← index bytes offset
    (results, end) ← decode_results result_count bytes (offset + 4)
    fail_if (not (end == length bytes)) (invalid_pdu "bind ack body has trailing bytes")
    ok results

  -- `BindAckPdu::decode`
  unfoldable pub decode_bind_ack : Bytes → Result (BindAckPdu Uuid)
  decode_bind_ack bytes = do
    fail_if (ltb (length bytes) 12) (invalid_pdu "bind ack body requires at least 12 bytes")
    max_xmit_frag ← ok (u16_from_le_bytes (← index bytes 0) (← index bytes 1))
    max_recv_frag ← ok (u16_from_le_bytes (← index bytes 2) (← index bytes 3))
    assoc_group_id ←
        ok (
          u32_from_le_bytes (← index bytes 4) (← index bytes 5) (← index bytes 6) (← index bytes 7))
    secondary_addr_len ← ok (u16_from_le_bytes (← index bytes 8) (← index bytes 9))
    fail_if (ltb (length bytes) (10 + secondary_addr_len))
        (invalid_pdu "bind ack secondary address is truncated")
    results ← decode_result_list bytes (align (10 + secondary_addr_len))
    secondary_addr ← slice bytes 10 (10 + secondary_addr_len)
    ok (record {
      max_xmit_frag = max_xmit_frag;
      max_recv_frag = max_recv_frag;
      assoc_group_id = assoc_group_id;
      secondary_addr = secondary_addr;
      results = results;
    })

-- `code == PresentationResultCode::Acceptance` and `code != PresentationResultCode::NegotiateAck`
unfoldable pub is_acceptance : PresentationResultCode → Bool
is_acceptance acceptance = true
is_acceptance user_rejection = false
is_acceptance provider_rejection = false
is_acceptance negotiate_ack = false

unfoldable pub is_rejection : PresentationResultCode → Bool
is_rejection negotiate_ack = false
is_rejection acceptance = true
is_rejection user_rejection = true
is_rejection provider_rejection = true

-- `first_rejection.get_or_insert(error)`
abbrev pub get_or_insert : Option Error → Error → Option Error
get_or_insert none e = some e
get_or_insert (some first) e = some first

-- What `accepted_context` returns after its loop.
unfoldable pub no_acceptance : {A : Type 0} → Option Error → Result A
no_acceptance (some first) = err first
no_acceptance none = err (invalid_pdu "bind ack has no presentation results")

module _ {Uuid : Type 0} where
  -- The error that a result other than an acceptance stands for.
  abbrev pub rejection : PresentationContext Uuid → PresentationResult Uuid → Error
  rejection c r = presentation_context_rejected c.context_id r.result r.reason

  -- `first_rejection` after a result that is no acceptance.
  unfoldable pub note_rejection :
      Option Error → PresentationContext Uuid → PresentationResult Uuid → Option Error
  unfolding is_rejection
  note_rejection first c r =
      if is_rejection r.result then get_or_insert first (rejection c r) else first

  -- The loop of `BindAckPdu::accepted_context`, from result number `i` on.
  unfoldable pub accept_from :
      List (PresentationResult Uuid)
      → List (PresentationContext Uuid)
      → ℕ
      → Option Error
      → Result (AcceptedContext Uuid)
  accept_from [] proposed i first = no_acceptance first
  accept_from (r ∷ rs) proposed i first = elim (get_elem? proposed i) [
    | none ↦ err (invalid_pdu "bind ack result has no matching proposed context")
    | some c ↦
        let rest = accept_from rs proposed (i + 1) (note_rejection first c r) in
        if is_acceptance r.result
        then ok (record { context_id = c.context_id; transfer_syntax = r.transfer_syntax })
        else rest
  ]

  -- `BindAckPdu::accepted_context`
  unfoldable pub accepted_context :
      BindAckPdu Uuid → List (PresentationContext Uuid) → Result (AcceptedContext Uuid)
  unfolding accept_from
  accepted_context ack proposed = accept_from ack.results proposed 0 none
