-- ===== src/Syntax.antt =====
-- src/syntax.rs: presentation syntax identifiers, interface identities and transfer syntaxes.
pub mod RoundTrip
pub mod Version
use msrpce_dcerpc.Base.{
  ℕ, ◌*◌, ◌^◌, Bytes, IsU32, length, ok, ◌>>=◌, ◌>>◌, fail_if, index, slice, ltb,
}
use msrpce_dcerpc.Base.{[], ◌∷◌, ◌++◌, bit_or, String, u16_to_le_bytes, u32_to_le_bytes}
use msrpce_dcerpc.Base.{u32_from_le_bytes}
use msrpce_dcerpc.Crates.{UuidCrate, NdrSyntaxes}
use msrpce_dcerpc.Error.{Result, invalid_pdu}

pub record SyntaxId (Uuid : Type 0) : Type 0 where
  pub uuid : Uuid
  pub version : ℕ

pub record InterfaceId (Uuid : Type 0) : Type 0 where
  pub uuid : Uuid
  pub major_version : ℕ
  pub minor_version : ℕ

pub data TransferSyntax : Type 0 where
  ndr32 ndr64 : TransferSyntax

-- `TransferSyntax::name`
pub transfer_syntax_name : TransferSyntax → String
transfer_syntax_name ndr32 = "NDR32"
transfer_syntax_name ndr64 = "NDR64"

-- `TransferSyntax::as_ndr_syntax`
as_ndr_syntax : {Syntax : Type 0} → NdrSyntaxes Syntax → TransferSyntax → Syntax
as_ndr_syntax crate ndr32 = crate.syntax_ndr32
as_ndr_syntax crate ndr64 = crate.syntax_ndr64

abbrev pub bind_time_feature_security_context_multiplexing : ℕ
bind_time_feature_security_context_multiplexing = 0x0001

abbrev pub bind_time_feature_keep_connection_on_orphan : ℕ
bind_time_feature_keep_connection_on_orphan = 0x0002

-- `u32::from(major) | (u32::from(minor) << 16)`, of two `u16`s.
unfoldable pub pack_version : ℕ → ℕ → ℕ
pack_version major minor = bit_or major (minor * 2 ^ 16)

-- `SyntaxId::new`
unfoldable pub new_syntax_id : {Uuid : Type 0} → Uuid → ℕ → ℕ → SyntaxId Uuid
unfolding pack_version
new_syntax_id uuid major_version minor_version = record {
  uuid = uuid;
  version = pack_version major_version minor_version;
}

-- `InterfaceId::version_u32`
unfoldable pub version_u32 : {Uuid : Type 0} → InterfaceId Uuid → ℕ
unfolding pack_version
version_u32 i = pack_version i.major_version i.minor_version

-- `InterfaceId::syntax_id`
unfoldable pub interface_syntax_id : {Uuid : Type 0} → InterfaceId Uuid → SyntaxId Uuid
unfolding version_u32
interface_syntax_id i = record { uuid = i.uuid; version = version_u32 i }

module _ {Uuid : Type 0} ⦃u : UuidCrate Uuid⦄ where
  -- `SyntaxId::encode`
  unfoldable pub encode_syntax : SyntaxId Uuid → Bytes
  encode_syntax s = u.to_bytes_le s.uuid ++ u32_to_le_bytes s.version

  -- `SyntaxId::decode`
  unfoldable pub decode_syntax : Bytes → Result (SyntaxId Uuid)
  decode_syntax bytes = do
    fail_if (ltb (length bytes) 20) (invalid_pdu "syntax identifier requires 20 bytes")
    uuid_bytes ← slice bytes 0 16
    b16 ← index bytes 16
    b17 ← index bytes 17
    b18 ← index bytes 18
    b19 ← index bytes 19
    ok (record { uuid = u.from_bytes_le uuid_bytes; version = u32_from_le_bytes b16 b17 b18 b19 })

  -- `SyntaxId::bind_time_feature_negotiation`
  unfoldable pub bind_time_syntax : ℕ → SyntaxId Uuid
  bind_time_syntax bitmask = record {
    uuid =
        u.from_fields 0x6cb7_1c2c 0x9812 0x4540
          (u16_to_le_bytes bitmask ++ (0 ∷ 0 ∷ 0 ∷ 0 ∷ 0 ∷ 0 ∷ []));
    version = 1;
  }

  -- `TransferSyntax::syntax_id`
  unfoldable pub transfer_syntax_id : TransferSyntax → SyntaxId Uuid
  unfolding new_syntax_id
  transfer_syntax_id ndr32 =
      new_syntax_id (u.from_u128 0x8a88_5d04_1ceb_11c9_9fe8_0800_2b10_4860) 2 0
  transfer_syntax_id ndr64 =
      new_syntax_id (u.from_u128 0x7171_0533_beba_4937_8319_b5db_ef9c_cc36) 1 0
