-- ===== src/Error.antt =====
-- src/error.rs: the crate's error type and its results; the reasons that errors carry are in a
-- child.
mod Kinds
pub mod Display
pub use Kinds.{RejectReason}
pub use Kinds.{PresentationResultCode, acceptance, user_rejection, provider_rejection}
pub use Kinds.{negotiate_ack, PresentationRejectReason}
unfoldable pub use Kinds.{reject_reason_code, presentation_result_code}
unfoldable pub use Kinds.{presentation_reject_reason_code}
use msrpce_dcerpc.Base.{ℕ, String, Bool, Option, none, some, Res, err, ok, ◌==◌, if◌then◌else◌}

-- `enum Error`
pub data Error : Type 0 where
  invalid_pdu_type : ℕ → Error
  invalid_pdu : String → Error
  bind_rejected : RejectReason → Error
  presentation_context_rejected : ℕ → PresentationResultCode → PresentationRejectReason → Error
  fault : ℕ → Error
  transport auth ndr : String → Error

-- `type Result<T>`
abbrev pub Result {ℓ} : Type ℓ → Type ℓ
Result A = Res Error A

pub rpc_fault_status_name : ℕ → Option String
rpc_fault_status_name status =
    if status == 0x0000_0005
    then some "ERROR_ACCESS_DENIED"
    else if status == 0x0000_06f7
    then some "ERROR_BAD_STUB_DATA"
    else if status == 0x1c00_0001
    then some "nca_s_fault_other"
    else if status == 0x1c00_0002
    then some "nca_s_fault_access_denied"
    else if status == 0x1c00_0003
    then some "nca_s_fault_ndr"
    else if status == 0x1c00_0006
    then some "nca_s_fault_invalid_tag"
    else if status == 0x1c00_0009
    then some "nca_s_fault_context_mismatch"
    else if status == 0x1c00_000b
    then some "nca_s_fault_cancel"
    else if status == 0x1c00_000d
    then some "nca_s_fault_remote_no_memory"
    else if status == 0x1c00_000f
    then some "nca_s_fault_unspec"
    else if status == 0x1c01_0002
    then some "nca_s_unk_if"
    else if status == 0x1c01_0003
    then some "nca_s_unsupported_type"
    else if status == 0x1c01_0006
    then some "nca_s_op_rng_error"
    else none
