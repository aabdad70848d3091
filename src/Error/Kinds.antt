-- ===== src/Error/Kinds.antt =====
-- The reasons that errors carry (src/pdu.rs, src/bind.rs) and their wire values.
use msrpce_dcerpc.Base.{ℕ}

-- `enum RejectReason`, of a bind nak.
pub data RejectReason : Type 0 where
  reason_not_specified abstract_syntax_not_supported : RejectReason
  proposed_transfer_syntax_not_supported local_limit_exceeded : RejectReason
  protocol_version_not_specified authentication_type_not_recognized : RejectReason
  invalid_checksum : RejectReason

-- `reason as u16`
unfoldable pub reject_reason_code : RejectReason → ℕ
reject_reason_code RejectReason.reason_not_specified = 0x0000
reject_reason_code RejectReason.abstract_syntax_not_supported = 0x0001
reject_reason_code RejectReason.proposed_transfer_syntax_not_supported = 0x0002
reject_reason_code RejectReason.local_limit_exceeded = 0x0003
reject_reason_code RejectReason.protocol_version_not_specified = 0x0004
reject_reason_code RejectReason.authentication_type_not_recognized = 0x0008
reject_reason_code RejectReason.invalid_checksum = 0x0009

-- `enum PresentationResultCode`, of one result of a bind ack.
pub data PresentationResultCode : Type 0 where
  acceptance user_rejection provider_rejection negotiate_ack : PresentationResultCode

unfoldable pub presentation_result_code : PresentationResultCode → ℕ
presentation_result_code acceptance = 0
presentation_result_code user_rejection = 1
presentation_result_code provider_rejection = 2
presentation_result_code negotiate_ack = 3

-- `enum PresentationRejectReason`
pub data PresentationRejectReason : Type 0 where
  reason_not_specified abstract_syntax_not_supported : PresentationRejectReason
  proposed_transfer_syntax_not_supported local_limit_exceeded : PresentationRejectReason

unfoldable pub presentation_reject_reason_code : PresentationRejectReason → ℕ
presentation_reject_reason_code PresentationRejectReason.reason_not_specified = 0
presentation_reject_reason_code PresentationRejectReason.abstract_syntax_not_supported = 1
presentation_reject_reason_code PresentationRejectReason.proposed_transfer_syntax_not_supported = 2
presentation_reject_reason_code PresentationRejectReason.local_limit_exceeded = 3
