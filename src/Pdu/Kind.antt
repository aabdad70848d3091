-- ===== src/Pdu/Kind.antt =====
-- `enum PduType` of src/pdu.rs, and the reject reasons as they are read from the wire.
pub mod Codes
use msrpce_dcerpc.Base.{ℕ, ok, err, ◌==◌, if◌then◌else◌}
use msrpce_dcerpc.Error.{Result, invalid_pdu_type, invalid_pdu, RejectReason}

pub data PduType : Type 0 where
  request ping response fault working no_call reject ack cl_cancel fack : PduType
  cancel_ack bind bind_ack bind_nak alter_context alter_context_response : PduType
  auth3 shutdown co_cancel orphaned : PduType

-- `ptype as u8`
unfoldable pub pdu_type_code : PduType → ℕ
pdu_type_code request = 0x00
pdu_type_code ping = 0x01
pdu_type_code response = 0x02
pdu_type_code fault = 0x03
pdu_type_code working = 0x04
pdu_type_code no_call = 0x05
pdu_type_code reject = 0x06
pdu_type_code ack = 0x07
pdu_type_code cl_cancel = 0x08
pdu_type_code fack = 0x09
pdu_type_code cancel_ack = 0x0a
pdu_type_code bind = 0x0b
pdu_type_code bind_ack = 0x0c
pdu_type_code bind_nak = 0x0d
pdu_type_code alter_context = 0x0e
pdu_type_code alter_context_response = 0x0f
pdu_type_code auth3 = 0x10
pdu_type_code shutdown = 0x11
pdu_type_code co_cancel = 0x12
pdu_type_code orphaned = 0x13

-- `PduType::try_from`
unfoldable pub pdu_type_try_from : ℕ → Result PduType
pdu_type_try_from value =
    if value == 0x00
    then ok request
    else if value == 0x01
    then ok ping
    else if value == 0x02
    then ok response
    else if value == 0x03
    then ok fault
    else if value == 0x04
    then ok working
    else if value == 0x05
    then ok no_call
    else if value == 0x06
    then ok reject
    else if value == 0x07
    then ok ack
    else if value == 0x08
    then ok cl_cancel
    else if value == 0x09
    then ok fack
    else if value == 0x0a
    then ok cancel_ack
    else if value == 0x0b
    then ok bind
    else if value == 0x0c
    then ok bind_ack
    else if value == 0x0d
    then ok bind_nak
    else if value == 0x0e
    then ok alter_context
    else if value == 0x0f
    then ok alter_context_response
    else if value == 0x10
    then ok auth3
    else if value == 0x11
    then ok shutdown
    else if value == 0x12
    then ok co_cancel
    else if value == 0x13
    then ok orphaned
    else err (invalid_pdu_type value)

-- `RejectReason::try_from`
unfoldable pub reject_reason_try_from : ℕ → Result RejectReason
reject_reason_try_from value =
    if value == 0x0000
    then ok RejectReason.reason_not_specified
    else if value == 0x0001
    then ok RejectReason.abstract_syntax_not_supported
    else if value == 0x0002
    then ok RejectReason.proposed_transfer_syntax_not_supported
    else if value == 0x0003
    then ok RejectReason.local_limit_exceeded
    else if value == 0x0004
    then ok RejectReason.protocol_version_not_specified
    else if value == 0x0008
    then ok RejectReason.authentication_type_not_recognized
    else if value == 0x0009
    then ok RejectReason.invalid_checksum
    else err (invalid_pdu "unknown bind nak reject reason")
