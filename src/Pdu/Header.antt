-- ===== src/Pdu/Header.antt =====
-- `struct PduHeader` of src/pdu.rs, its flags, and the reads and writes in the header's own byte
-- order.
pub mod RoundTrip
use msrpce_dcerpc.Base.{ℕ, Bytes, Array4, array4_bytes, IsArray4, IsU8, IsU16, IsU32, length}
use msrpce_dcerpc.Base.{ok, err, ◌>>=◌, ◌>>◌, fail_if, index, slice, ltb, ◌==◌, not}
use msrpce_dcerpc.Base.{[], ◌∷◌, ◌++◌, String}
use msrpce_dcerpc.Base.{u16_to_le_bytes, u16_to_be_bytes, u32_to_le_bytes, u32_to_be_bytes}
use msrpce_dcerpc.Base.{u16_from_le_bytes, u16_from_be_bytes, u32_from_le_bytes, u32_from_be_bytes}
use msrpce_dcerpc.Base.{◌≡◌, ◌⊎◌, inl, inr}
use msrpce_dcerpc.Crates.{ByteOrder, little, big, NdrCrate}
use msrpce_dcerpc.Error.{Result, invalid_pdu, ndr}
use msrpce_dcerpc.Pdu.Kind.{PduType, pdu_type_code, pdu_type_try_from}

abbrev pub rpc_version : ℕ
rpc_version = 5

abbrev pub rpc_version_minor : ℕ
rpc_version_minor = 0

abbrev pub common_header_len : ℕ
common_header_len = 16

abbrev pub pfc_first_frag : ℕ
pfc_first_frag = 0x01

abbrev pub pfc_last_frag : ℕ
pfc_last_frag = 0x02

abbrev pub pfc_object_uuid : ℕ
pfc_object_uuid = 0x80

pub record PduHeader : Type 0 where
  pub rpc_vers : ℕ
  pub rpc_vers_minor : ℕ
  pub ptype : PduType
  pub pfc_flags : ℕ
  pub packed_drep : Array4
  pub frag_length : ℕ
  pub auth_length : ℕ
  pub call_id : ℕ

unfoldable pub read_u16 : Bytes → ByteOrder → Result ℕ
read_u16 bytes little = do ok (u16_from_le_bytes (← index bytes 0) (← index bytes 1))
read_u16 bytes big = do ok (u16_from_be_bytes (← index bytes 0) (← index bytes 1))

unfoldable pub read_u32 : Bytes → ByteOrder → Result ℕ
read_u32 bytes little = do
  ok (u32_from_le_bytes (← index bytes 0) (← index bytes 1) (← index bytes 2) (← index bytes 3))
read_u32 bytes big = do
  ok (u32_from_be_bytes (← index bytes 0) (← index bytes 1) (← index bytes 2) (← index bytes 3))

-- `write_u16`: the bytes that it copies to its slot.
unfoldable pub write_u16 : ℕ → ByteOrder → Bytes
write_u16 value little = u16_to_le_bytes value
write_u16 value big = u16_to_be_bytes value

unfoldable pub write_u32 : ℕ → ByteOrder → Bytes
write_u32 value little = u32_to_le_bytes value
write_u32 value big = u32_to_be_bytes value

-- The library's error becomes `Error::Ndr`, as `?` converts it.
unfoldable pub drep_result : String ⊎ ByteOrder → Result ByteOrder
drep_result (inl message) = err (ndr message)
drep_result (inr order) = ok order

-- `.map(|drep| drep.byte_order).unwrap_or(ByteOrder::Little)`
unfoldable pub order_or_little : String ⊎ ByteOrder → ByteOrder
order_or_little (inl message) = little
order_or_little (inr order) = order

module _ ⦃n : NdrCrate⦄ where
  -- `PduHeader::new`
  unfoldable pub new_header : PduType → ℕ → ℕ → PduHeader
  new_header ptype pfc_flags call_id = record {
    rpc_vers = rpc_version;
    rpc_vers_minor = rpc_version_minor;
    ptype = ptype;
    pfc_flags = pfc_flags;
    packed_drep = n.windows_default;
    frag_length = common_header_len;
    auth_length = 0;
    call_id = call_id;
  }

  -- `PduHeader::byte_order`
  unfoldable pub byte_order : PduHeader → ByteOrder
  unfolding order_or_little
  byte_order h = order_or_little (n.drep_from_bytes h.packed_drep)

  -- `PduHeader::encode`
  unfoldable pub encode_header : PduHeader → Bytes
  unfolding byte_order write_u16 write_u32 pdu_type_code
  encode_header h =
      (h.rpc_vers ∷ h.rpc_vers_minor ∷ pdu_type_code h.ptype ∷ h.pfc_flags ∷ [])
      ++ (array4_bytes h.packed_drep
          ++ (write_u16 h.frag_length (byte_order h)
              ++ (write_u16 h.auth_length (byte_order h) ++ write_u32 h.call_id (byte_order h))))

  -- `PduHeader::decode`
  unfoldable pub decode_header : Bytes → Result PduHeader
  unfolding drep_result read_u16 read_u32 slice
  decode_header bytes = do
    fail_if (ltb (length bytes) common_header_len) (invalid_pdu "common header requires 16 bytes")
    b4 ← index bytes 4
    b5 ← index bytes 5
    b6 ← index bytes 6
    b7 ← index bytes 7
    byte_order ← drep_result (n.drep_from_bytes (b4, b5, b6, b7))
    rpc_vers ← index bytes 0
    rpc_vers_minor ← index bytes 1
    ptype ← pdu_type_try_from (← index bytes 2)
    pfc_flags ← index bytes 3
    frag_length ← read_u16 (← slice bytes 8 10) byte_order
    auth_length ← read_u16 (← slice bytes 10 12) byte_order
    call_id ← read_u32 (← slice bytes 12 16) byte_order
    fail_if (not (rpc_vers == rpc_version)) (invalid_pdu "unsupported RPC major version")
    ok (record {
      rpc_vers = rpc_vers;
      rpc_vers_minor = rpc_vers_minor;
      ptype = ptype;
      pfc_flags = pfc_flags;
      packed_drep = (b4, b5, b6, b7);
      frag_length = frag_length;
      auth_length = auth_length;
      call_id = call_id;
    })

  -- What a header holds that came from the wire or goes there: each field in its range, the one
  -- version, and a data representation that the library knows.
  pub record IsWireHeader (h : PduHeader) : Type 0 where
    pub version : h.rpc_vers ≡ rpc_version
    pub minor : IsU8 h.rpc_vers_minor
    pub flags : IsU8 h.pfc_flags
    pub drep : IsArray4 h.packed_drep
    pub frag : IsU16 h.frag_length
    pub auth : IsU16 h.auth_length
    pub call : IsU32 h.call_id
    pub order : ByteOrder
    pub known : n.drep_from_bytes h.packed_drep ≡ inr order
