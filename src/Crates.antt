-- ===== src/Crates.antt =====
-- What the code takes from the crates `msrpce_ndr` and `uuid`: parameters of the model, with the
-- documented behaviour that it relies on.
use msrpce_dcerpc.Base.{ℕ, Bytes, Array4, IsArray4, IsBytes, String, length}
use msrpce_dcerpc.Base.{◌≡◌, ◌⊎◌, inr, Option, some}

-- `msrpce_ndr::ByteOrder`
pub data ByteOrder : Type 0 where
  little big : ByteOrder

-- `DataRepresentation`: of a decoded value the code reads `byte_order` alone, and of an error the
-- text.
pub record NdrCrate : Type 0 where
  pub drep_from_bytes : Array4 → String ⊎ ByteOrder
  pub windows_default : Array4
  -- The Windows label is four bytes, and says little-endian.
  pub windows_default-IsArray4 : IsArray4 windows_default
  pub windows_default-little : drep_from_bytes windows_default ≡ inr little

-- `Uuid`, over the crate's type of values.
pub record UuidCrate (Uuid : Type 0) : Type 0 where
  pub to_bytes_le : Uuid → Bytes
  pub from_bytes_le : Bytes → Uuid
  pub as_bytes : Uuid → Bytes
  pub from_slice : Bytes → Option Uuid
  pub from_u128 : ℕ → Uuid
  pub from_fields : ℕ → ℕ → ℕ → Bytes → Uuid
  -- Both byte forms are 16 bytes, and each is read back.
  pub length-to_bytes_le : (u : Uuid) → length (to_bytes_le u) ≡ 16
  pub to_bytes_le-IsBytes : (u : Uuid) → IsBytes (to_bytes_le u)
  pub from_bytes_le-to_bytes_le : (u : Uuid) → from_bytes_le (to_bytes_le u) ≡ u
  pub to_bytes_le-from_bytes_le :
      (b : Bytes) → length b ≡ 16 → IsBytes b → to_bytes_le (from_bytes_le b) ≡ b
  pub length-as_bytes : (u : Uuid) → length (as_bytes u) ≡ 16
  pub as_bytes-IsBytes : (u : Uuid) → IsBytes (as_bytes u)
  pub from_slice-as_bytes : (u : Uuid) → from_slice (as_bytes u) ≡ some u
  pub as_bytes-from_slice : (b : Bytes) {u : Uuid} → from_slice b ≡ some u → as_bytes u ≡ b

-- `Ndr::serialize` of a request's type and `Ndr::deserialize` of a response's: an error is its text.
pub record NdrCodec (Req Resp : Type 0) : Type 0 where
  pub serialize : Req → String ⊎ Bytes
  pub deserialize : Bytes → String ⊎ Resp

-- The two values of `msrpce_ndr::TransferSyntax` that the code names.
pub record NdrSyntaxes (Syntax : Type 0) : Type 0 where
  pub syntax_ndr32 : Syntax
  pub syntax_ndr64 : Syntax
