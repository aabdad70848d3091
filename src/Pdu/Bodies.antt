-- ===== src/Pdu/Bodies.antt =====
-- The bodies of src/pdu.rs: `BindPdu`, `RequestPdu`, `ResponsePdu` and `FaultPdu`.
pub mod RoundTrip
pub mod Total
use msrpce_dcerpc.Base.{ℕ, Bytes, IsU8, IsU16, IsU32, IsBytes, length, ok, err, ◌+◌}
use msrpce_dcerpc.Base.{◌>>=◌, ◌>>◌, fail_if, index, slice, slice_from, ltb, [], ◌∷◌, ◌++◌}
use msrpce_dcerpc.Base.{u16_to_le_bytes, u16_from_le_bytes, u32_to_le_bytes, u32_from_le_bytes}
use msrpce_dcerpc.Base.{Bool, true, false, Option, none, some, if◌then◌else◌}
use msrpce_dcerpc.Crates.{UuidCrate}
use msrpce_dcerpc.Error.{Result, invalid_pdu}

pub record BindPdu : Type 0 where
  pub max_xmit_frag : ℕ
  pub max_recv_frag : ℕ
  pub assoc_group_id : ℕ
  pub presentation_context_list : Bytes

-- `BindPdu::encode`
unfoldable pub encode_bind : BindPdu → Bytes
encode_bind p =
    u16_to_le_bytes p.max_xmit_frag
    ++ (u16_to_le_bytes p.max_recv_frag
        ++ (u32_to_le_bytes p.assoc_group_id ++ p.presentation_context_list))

-- `BindPdu::decode`
unfoldable pub decode_bind : Bytes → Result BindPdu
unfolding slice_from
decode_bind bytes = do
  fail_if (ltb (length bytes) 8) (invalid_pdu "bind PDU body requires at least 8 bytes")
  max_xmit_frag ← ok (u16_from_le_bytes (← index bytes 0) (← index bytes 1))
  max_recv_frag ← ok (u16_from_le_bytes (← index bytes 2) (← index bytes 3))
  assoc_group_id ←
      ok (u32_from_le_bytes (← index bytes 4) (← index bytes 5) (← index bytes 6) (← index bytes 7))
  presentation_context_list ← slice_from bytes 8
  ok (record {
    max_xmit_frag = max_xmit_frag;
    max_recv_frag = max_recv_frag;
    assoc_group_id = assoc_group_id;
    presentation_context_list = presentation_context_list;
  })

pub record IsWireBind (p : BindPdu) : Type 0 where
  pub xmit : IsU16 p.max_xmit_frag
  pub recv : IsU16 p.max_recv_frag
  pub group : IsU32 p.assoc_group_id

pub record RequestPdu (Uuid : Type 0) : Type 0 where
  pub alloc_hint : ℕ
  pub ctx_id : ℕ
  pub opnum : ℕ
  pub object : Option Uuid
  pub stub_data : Bytes

pub record IsWireRequest {Uuid : Type 0} (p : RequestPdu Uuid) : Type 0 where
  pub hint : IsU32 p.alloc_hint
  pub ctx : IsU16 p.ctx_id
  pub op : IsU16 p.opnum

pub record ResponsePdu : Type 0 where
  pub alloc_hint : ℕ
  pub ctx_id : ℕ
  pub cancel_count : ℕ
  pub stub_data : Bytes

-- `ResponsePdu::encode`
unfoldable pub encode_response : ResponsePdu → Bytes
encode_response p =
    u32_to_le_bytes p.alloc_hint ++ (u16_to_le_bytes p.ctx_id ++ (p.cancel_count ∷ 0 ∷ p.stub_data))

-- `ResponsePdu::decode`
unfoldable pub decode_response : Bytes → Result ResponsePdu
unfolding slice_from
decode_response bytes = do
  fail_if (ltb (length bytes) 8) (invalid_pdu "response PDU body requires at least 8 bytes")
  alloc_hint ←
      ok (u32_from_le_bytes (← index bytes 0) (← index bytes 1) (← index bytes 2) (← index bytes 3))
  ctx_id ← ok (u16_from_le_bytes (← index bytes 4) (← index bytes 5))
  cancel_count ← index bytes 6
  stub_data ← slice_from bytes 8
  ok (record {
    alloc_hint = alloc_hint;
    ctx_id = ctx_id;
    cancel_count = cancel_count;
    stub_data = stub_data;
  })

pub record IsWireResponse (p : ResponsePdu) : Type 0 where
  pub hint : IsU32 p.alloc_hint
  pub ctx : IsU16 p.ctx_id

pub record FaultPdu : Type 0 where
  pub alloc_hint : ℕ
  pub ctx_id : ℕ
  pub cancel_count : ℕ
  pub status : ℕ
  pub stub_data : Bytes

-- `FaultPdu::encode`
unfoldable pub encode_fault : FaultPdu → Bytes
encode_fault p =
    u32_to_le_bytes p.alloc_hint
    ++ (u16_to_le_bytes p.ctx_id
        ++ (p.cancel_count ∷ 0 ∷ (u32_to_le_bytes p.status ++ p.stub_data)))

-- `FaultPdu::decode`
unfoldable pub decode_fault : Bytes → Result FaultPdu
unfolding slice_from
decode_fault bytes = do
  fail_if (ltb (length bytes) 12) (invalid_pdu "fault PDU body requires at least 12 bytes")
  alloc_hint ←
      ok (u32_from_le_bytes (← index bytes 0) (← index bytes 1) (← index bytes 2) (← index bytes 3))
  ctx_id ← ok (u16_from_le_bytes (← index bytes 4) (← index bytes 5))
  cancel_count ← index bytes 6
  status ←
      ok (
        u32_from_le_bytes (← index bytes 8) (← index bytes 9) (← index bytes 10) (← index bytes 11))
  stub_data ← slice_from bytes 12
  ok (record {
    alloc_hint = alloc_hint;
    ctx_id = ctx_id;
    cancel_count = cancel_count;
    status = status;
    stub_data = stub_data;
  })

pub record IsWireFault (p : FaultPdu) : Type 0 where
  pub hint : IsU32 p.alloc_hint
  pub ctx : IsU16 p.ctx_id
  pub code : IsU32 p.status

-- `Uuid::from_slice(…).map_err(…)`
unfoldable pub object_result : {A : Type 0} → Option A → Result (Option A)
object_result none = err (invalid_pdu "request object UUID is invalid")
object_result (some object) = ok (some object)

module _ {Uuid : Type 0} ⦃u : UuidCrate Uuid⦄ where
  -- `if let Some(object) = self.object { … }`
  unfoldable pub object_bytes : Option Uuid → Bytes
  object_bytes none = []
  object_bytes (some object) = u.as_bytes object

  -- `RequestPdu::encode`
  unfoldable pub encode_request : RequestPdu Uuid → Bytes
  unfolding object_bytes
  encode_request p =
      u32_to_le_bytes p.alloc_hint
      ++ (u16_to_le_bytes p.ctx_id
          ++ (u16_to_le_bytes p.opnum ++ (object_bytes p.object ++ p.stub_data)))

  -- The `object` of `RequestPdu::decode`.
  unfoldable pub decode_object : Bytes → Bool → Result (Option Uuid)
  unfolding object_result slice
  decode_object bytes true = do object_result (u.from_slice (← slice bytes 8 24))
  decode_object bytes false = ok none

  -- `RequestPdu::decode`
  unfoldable pub decode_request : Bytes → Bool → Result (RequestPdu Uuid)
  unfolding decode_object slice_from
  decode_request bytes has_object =
      let object_len : ℕ = if has_object then 16 else 0 in
      do
        fail_if (ltb (length bytes) (8 + object_len)) (invalid_pdu "request PDU body is too short")
        object ← decode_object bytes has_object
        alloc_hint ← ok (
            u32_from_le_bytes (← index bytes 0) (← index bytes 1) (← index bytes 2)
              (← index bytes 3))
        ctx_id ← ok (u16_from_le_bytes (← index bytes 4) (← index bytes 5))
        opnum ← ok (u16_from_le_bytes (← index bytes 6) (← index bytes 7))
        stub_data ← slice_from bytes (8 + object_len)
        ok (record {
          alloc_hint = alloc_hint;
          ctx_id = ctx_id;
          opnum = opnum;
          object = object;
          stub_data = stub_data;
        })
