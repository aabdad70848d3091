-- ===== src/Auth/Codes.antt =====
-- The enumerations of src/auth.rs with their wire values, and its error type.
use Prim.Native.String.{◌++◌}
use msrpce_dcerpc.Base.{ℕ, String, Res, ok, err, ◌==◌, if◌then◌else◌}
use msrpce_dcerpc.Base.Text.{hex_byte}
use msrpce_dcerpc.Error.{Error, auth}

-- `enum RpcAuthError`
pub data RpcAuthError : Type 0 where
  unsupported provider : String → RpcAuthError

-- `impl From<RpcAuthError> for Error`, in src/error.rs.
unfoldable pub error_of_auth : RpcAuthError → Error
error_of_auth (unsupported message) = auth message
error_of_auth (provider message) = auth message

-- `enum AuthLevel`
pub data AuthLevel : Type 0 where
  none connect packet_integrity packet_privacy : AuthLevel

-- `level as u8`
unfoldable pub auth_level_code : AuthLevel → ℕ
auth_level_code AuthLevel.none = 0
auth_level_code connect = 2
auth_level_code packet_integrity = 5
auth_level_code packet_privacy = 6

-- `AuthLevel::try_from`
unfoldable pub auth_level_try_from : ℕ → Res RpcAuthError AuthLevel
auth_level_try_from value =
    if value == 0
    then ok AuthLevel.none
    else if value == 2
    then ok connect
    else if value == 5
    then ok packet_integrity
    else if value == 6
    then ok packet_privacy
    else err (provider ("unsupported RPC auth level: 0x" ++ hex_byte value))

-- `enum AuthMechanism`
pub data AuthMechanism : Type 0 where
  none kerberos ntlm : AuthMechanism

-- `enum RpcAuthType`
pub data RpcAuthType : Type 0 where
  none gss_negotiate win_nt gss_kerberos : RpcAuthType

unfoldable pub auth_type_code : RpcAuthType → ℕ
auth_type_code RpcAuthType.none = 0
auth_type_code gss_negotiate = 9
auth_type_code win_nt = 10
auth_type_code gss_kerberos = 16

-- `RpcAuthType::try_from`
unfoldable pub auth_type_try_from : ℕ → Res RpcAuthError RpcAuthType
auth_type_try_from value =
    if value == 0
    then ok RpcAuthType.none
    else if value == 9
    then ok gss_negotiate
    else if value == 10
    then ok win_nt
    else if value == 16
    then ok gss_kerberos
    else err (provider ("unsupported RPC auth type: 0x" ++ hex_byte value))

-- The default method `RpcAuthProvider::auth_type`.
unfoldable pub default_auth_type : AuthMechanism → RpcAuthType
default_auth_type AuthMechanism.none = RpcAuthType.none
default_auth_type kerberos = gss_kerberos
default_auth_type ntlm = win_nt
