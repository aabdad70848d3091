-- ===== src/Pdu/Trailer.antt =====
-- `struct SecurityTrailer` of src/pdu.rs.
pub mod RoundTrip
use msrpce_dcerpc.Base.{ℕ, Bytes, IsU8, IsU32, length, ok, err, panic, diverge}
use msrpce_dcerpc.Base.{◌>>=◌, ◌>>◌, fail_if, index, ltb, ◌∷◌, Res, String}
use msrpce_dcerpc.Base.{u32_to_le_bytes, u32_from_le_bytes}
use msrpce_dcerpc.Error.{Result, invalid_pdu}
use msrpce_dcerpc.Auth.{AuthLevel, RpcAuthType, RpcAuthError, auth_level_code, auth_level_try_from}
use msrpce_dcerpc.Auth.{auth_type_code, auth_type_try_from}

pub record SecurityTrailer : Type 0 where
  pub auth_type : RpcAuthType
  pub auth_level : AuthLevel
  pub auth_pad_length : ℕ
  pub auth_reserved : ℕ
  pub auth_context_id : ℕ

-- `SecurityTrailer::LEN`
abbrev pub trailer_len : ℕ
trailer_len = 8

-- `.map_err(|_| Error::InvalidPdu(message))`
abbrev pub or_invalid : {A : Type 0} → Res RpcAuthError A → String → Result A
or_invalid (ok a) message = ok a
or_invalid (err e) message = err (invalid_pdu message)
or_invalid panic message = panic
or_invalid diverge message = diverge

-- `SecurityTrailer::encode`
unfoldable pub encode_trailer : SecurityTrailer → Bytes
encode_trailer t =
    auth_type_code t.auth_type
    ∷ auth_level_code t.auth_level
    ∷ t.auth_pad_length
    ∷ t.auth_reserved
    ∷ u32_to_le_bytes t.auth_context_id

-- `SecurityTrailer::decode`
unfoldable pub decode_trailer : Bytes → Result SecurityTrailer
decode_trailer bytes = do
  fail_if (ltb (length bytes) trailer_len) (invalid_pdu "security trailer requires 8 bytes")
  auth_type ← or_invalid (auth_type_try_from (← index bytes 0)) "unsupported RPC auth type"
  auth_level ← or_invalid (auth_level_try_from (← index bytes 1)) "unsupported RPC auth level"
  auth_pad_length ← index bytes 2
  auth_reserved ← index bytes 3
  b4 ← index bytes 4
  b5 ← index bytes 5
  b6 ← index bytes 6
  b7 ← index bytes 7
  ok (record {
    auth_type = auth_type;
    auth_level = auth_level;
    auth_pad_length = auth_pad_length;
    auth_reserved = auth_reserved;
    auth_context_id = u32_from_le_bytes b4 b5 b6 b7;
  })

pub record IsWireTrailer (t : SecurityTrailer) : Type 0 where
  pub pad : IsU8 t.auth_pad_length
  pub reserved : IsU8 t.auth_reserved
  pub context : IsU32 t.auth_context_id
