-- ===== src/Auth.antt =====
-- src/auth.rs: authentication levels and types with their wire values, and the provider boundary.
mod Codes
pub mod Wire
pub mod Answering
pub use Codes.*
unfoldable pub use Codes.{auth_level_code, auth_level_try_from, auth_type_code, auth_type_try_from}
unfoldable pub use Codes.{default_auth_type, error_of_auth}
use msrpce_dcerpc.Base.{ℕ, Bool, String, Bytes, Res}
use msrpce_dcerpc.Base.Text.{Text}

-- `trait RpcAuthProvider` over the type of the provider's own state: what `&self` methods read,
-- and what `&mut self` methods return and leave behind.
pub record AuthProvider (P : Type 0) : Type 0 where
  pub mechanism : P → AuthMechanism
  pub auth_level : P → AuthLevel
  pub init_context : Text → P → Res RpcAuthError Bytes × P
  pub step : Bytes → P → Res RpcAuthError Bytes × P
  pub auth_type : P → RpcAuthType
  pub auth_context_id : P → ℕ
  pub is_context_established : P → Bool
