-- ===== src/Error/Display.antt =====
-- `impl fmt::Display for Error` of src/error.rs and for `RpcAuthError` of src/auth.rs, with the names
-- that the derived `Debug` gives the reasons.
use msrpce_dcerpc.Base.{ℕ, String, ◌++◌, Option, none, some}
use msrpce_dcerpc.Base.Text.{Text, codes, hex_byte, hex_u32, decimal}
use msrpce_dcerpc.Error.{
  Error, invalid_pdu_type, invalid_pdu, bind_rejected, presentation_context_rejected, fault,
  transport, auth, ndr, rpc_fault_status_name, RejectReason, PresentationResultCode,
  PresentationRejectReason,
}
use msrpce_dcerpc.Auth.{RpcAuthError}

-- `{reason:?}` of a `RejectReason`
unfoldable pub reject_reason_name : RejectReason → String
reject_reason_name RejectReason.reason_not_specified = "ReasonNotSpecified"
reject_reason_name RejectReason.abstract_syntax_not_supported = "AbstractSyntaxNotSupported"
reject_reason_name RejectReason.proposed_transfer_syntax_not_supported =
    "ProposedTransferSyntaxNotSupported"
reject_reason_name RejectReason.local_limit_exceeded = "LocalLimitExceeded"
reject_reason_name RejectReason.protocol_version_not_specified = "ProtocolVersionNotSpecified"
reject_reason_name RejectReason.authentication_type_not_recognized =
    "AuthenticationTypeNotRecognized"
reject_reason_name RejectReason.invalid_checksum = "InvalidChecksum"

-- `{result:?}` of a `PresentationResultCode`
unfoldable pub presentation_result_name : PresentationResultCode → String
presentation_result_name PresentationResultCode.acceptance = "Acceptance"
presentation_result_name PresentationResultCode.user_rejection = "UserRejection"
presentation_result_name PresentationResultCode.provider_rejection = "ProviderRejection"
presentation_result_name PresentationResultCode.negotiate_ack = "NegotiateAck"

-- `{reason:?}` of a `PresentationRejectReason`
unfoldable pub presentation_reject_reason_name : PresentationRejectReason → String
presentation_reject_reason_name PresentationRejectReason.reason_not_specified = "ReasonNotSpecified"
presentation_reject_reason_name PresentationRejectReason.abstract_syntax_not_supported =
    "AbstractSyntaxNotSupported"
presentation_reject_reason_name PresentationRejectReason.proposed_transfer_syntax_not_supported =
    "ProposedTransferSyntaxNotSupported"
presentation_reject_reason_name PresentationRejectReason.local_limit_exceeded = "LocalLimitExceeded"

-- The arm of `Error::Fault`.
abbrev pub fault_text : ℕ → Option String → Text
fault_text status (some name) =
    codes "RPC fault status: "
    ++ (codes name ++ (codes " (0x" ++ (codes (hex_u32 status) ++ codes ")")))
fault_text status none = codes "RPC fault status: 0x" ++ codes (hex_u32 status)

-- `fmt` of `Error`
unfoldable pub display_error : Error → Text
unfolding reject_reason_name presentation_result_name presentation_reject_reason_name
display_error (invalid_pdu_type value) =
    codes "invalid MS-RPCE PDU type: 0x" ++ codes (hex_byte value)
display_error (invalid_pdu message) = codes "invalid MS-RPCE PDU: " ++ codes message
display_error (bind_rejected reason) = codes "bind rejected: " ++ codes (reject_reason_name reason)
display_error (presentation_context_rejected context_id result reason) =
    codes "presentation context "
    ++ (decimal context_id
        ++ (codes " rejected: "
            ++ (codes (presentation_result_name result)
                ++ (codes " (" ++ (codes (presentation_reject_reason_name reason) ++ codes ")")))))
display_error (fault status) = fault_text status (rpc_fault_status_name status)
display_error (transport message) = codes "transport error: " ++ codes message
display_error (auth message) = codes "authentication error: " ++ codes message
display_error (ndr message) = codes "NDR error: " ++ codes message

-- `fmt` of `RpcAuthError`
unfoldable pub display_auth_error : RpcAuthError → Text
display_auth_error (RpcAuthError.unsupported message) =
    codes "unsupported RPC authentication: " ++ codes message
display_auth_error (RpcAuthError.provider message) =
    codes "RPC authentication provider error: " ++ codes message
