-- ===== src/Pdu/Bodies/RoundTrip.antt =====
-- The bodies of src/pdu.rs are read back as written, written as read, and read without a panic.
use native.Mathlib.Decide.{dec_lt}
use msrpce_dcerpc.Base.{ℕ, ◌<◌, Bytes, IsBytes, length, uncons8, uncons16}
use msrpce_dcerpc.Base.{ok, [], ◌∷◌, ◌≡◌, refl, arith, lt→ltb}
use msrpce_dcerpc.Base.{Bool, true, false, Option, none, some}
use msrpce_dcerpc.Base.{u16_le_bytes_round, u32_le_bytes_round}
use msrpce_dcerpc.Base.{u16_from_le_bytes_round, u32_from_le_bytes_round}
use msrpce_dcerpc.Crates.{UuidCrate}
use msrpce_dcerpc.Pdu.Bodies.{
  BindPdu, IsWireBind, encode_bind, decode_bind, RequestPdu, IsWireRequest, encode_request,
  decode_request, ResponsePdu, IsWireResponse, encode_response, decode_response, FaultPdu,
  IsWireFault, encode_fault, decode_fault,
}

pub decode_bind-encode_bind : (p : BindPdu) → IsWireBind p → decode_bind (encode_bind p) ≡ ok p
unfolding decode_bind encode_bind
decode_bind-encode_bind p w = ground (
  arith,
  u16_le_bytes_round p.max_xmit_frag,
  u16_le_bytes_round p.max_recv_frag,
  u32_le_bytes_round p.assoc_group_id,
)

pub decode_response-encode_response :
    (p : ResponsePdu) → IsWireResponse p → decode_response (encode_response p) ≡ ok p
unfolding decode_response encode_response
decode_response-encode_response p w =
    ground (arith, u32_le_bytes_round p.alloc_hint, u16_le_bytes_round p.ctx_id)

pub decode_fault-encode_fault :
    (p : FaultPdu) → IsWireFault p → decode_fault (encode_fault p) ≡ ok p
unfolding decode_fault encode_fault
decode_fault-encode_fault p w = ground (
  arith,
  u32_le_bytes_round p.alloc_hint,
  u16_le_bytes_round p.ctx_id,
  u32_le_bytes_round p.status,
)

module _ (a0 a1 a2 a3 b0 b1 b2 b3 : ℕ) (t : Bytes) where
  abbrev eight : Bytes
  eight = a0 ∷ a1 ∷ a2 ∷ a3 ∷ b0 ∷ b1 ∷ b2 ∷ b3 ∷ t

  bind_eight : (p : BindPdu) → IsBytes eight → decode_bind eight ≡ ok p → encode_bind p ≡ eight
  unfolding decode_bind encode_bind
  bind_eight p bs d = ground (
    arith,
    u16_from_le_bytes_round a0 a1,
    u16_from_le_bytes_round a2 a3,
    u32_from_le_bytes_round b0 b1 b2 b3,
  )

abbrev is_some : {A : Type 0} → Option A → Bool
is_some none = false
is_some (some a) = true

module _ {Uuid : Type 0} ⦃u : UuidCrate Uuid⦄ where
  module _ (hint ctx op : ℕ) (o : Uuid) (stub : Bytes) where
    abbrev with_object : RequestPdu Uuid
    with_object = record {
      alloc_hint = hint;
      ctx_id = ctx;
      opnum = op;
      object = some o;
      stub_data = stub;
    }

    object_sixteen :
        (a0 a1 a2 a3 b0 b1 b2 b3 c0 c1 c2 c3 d0 d1 d2 d3 : ℕ) (t : Bytes)
        → IsWireRequest with_object
        → length t ≡ 0
        → u.as_bytes o
          ≡ a0 ∷ a1 ∷ a2 ∷ a3 ∷ b0 ∷ b1 ∷ b2 ∷ b3 ∷ c0 ∷ c1 ∷ c2 ∷ c3 ∷ d0 ∷ d1 ∷ d2 ∷ d3 ∷ t
        → decode_request (encode_request with_object) true ≡ ok with_object
    unfolding decode_request encode_request
    object_sixteen a0 a1 a2 a3 b0 b1 b2 b3 c0 c1 c2 c3 d0 d1 d2 d3 [] w z e = ground (
      arith,
      e,
      u.from_slice-as_bytes o,
      u32_le_bytes_round hint,
      u16_le_bytes_round ctx,
      u16_le_bytes_round op,
    )
    object_sixteen a0 a1 a2 a3 b0 b1 b2 b3 c0 c1 c2 c3 d0 d1 d2 d3 (x ∷ t) w z e =
        absurd (omega arith)

    object_round :
        IsWireRequest with_object
        → decode_request (encode_request with_object) true ≡ ok with_object
    object_round w =
        uncons16
          (λ bs.
            length bs ≡ 16
            → u.as_bytes o ≡ bs
            → decode_request (encode_request with_object) true ≡ ok with_object)
          (λ a0 a1 a2 a3 b0 b1 b2 b3 c0 c1 c2 c3 d0 d1 d2 d3 t h e.
            object_sixteen a0 a1 a2 a3 b0 b1 b2 b3 c0 c1 c2 c3 d0 d1 d2 d3 t w (omega arith) e)
          (u.as_bytes o) (omega (arith, u.length-as_bytes o)) (u.length-as_bytes o) refl

  -- A request whose numbers are in their ranges is read back, with or without an object, when the
  -- reader is told which.
  pub decode_request-encode_request :
      (p : RequestPdu Uuid)
      → IsWireRequest p
      → decode_request (encode_request p) (is_some p.object) ≡ ok p
  decode_request-encode_request p w = by_object p.object refl
    where
      by_object :
          (o : Option Uuid)
          → p.object ≡ o
          → decode_request (encode_request p) (is_some p.object) ≡ ok p
      by_object none e =
          unfold decode_request encode_request in
          ground (
            arith,
            u32_le_bytes_round p.alloc_hint,
            u16_le_bytes_round p.ctx_id,
            u16_le_bytes_round p.opnum,
          )
      by_object (some o) e = rw e (
          object_round p.alloc_hint p.ctx_id p.opnum o p.stub_data
            (record { hint = w.hint; ctx = w.ctx; op = w.op }))

-- A bind body read from bytes is written as those bytes.
pub encode_bind-decode_bind :
    (bytes : Bytes) (p : BindPdu) → IsBytes bytes → decode_bind bytes ≡ ok p → encode_bind p ≡ bytes
encode_bind-decode_bind bytes p bs d = elim (dec_lt (length bytes) 8) [
  | yes h ↦ absurd (bind_short bytes h p d)
  | no h ↦
      uncons8 (λ ys. IsBytes ys → decode_bind ys ≡ ok p → encode_bind p ≡ ys)
        (λ a0 a1 a2 a3 b0 b1 b2 b3 t. bind_eight a0 a1 a2 a3 b0 b1 b2 b3 t p) bytes (omega arith) bs
        d
]
  where
    bind_short : (ys : Bytes) → length ys < 8 → (q : BindPdu) → decode_bind ys ≡ ok q → ⊥
    bind_short ys h q e = unfold decode_bind in cc (lt→ltb (length ys) 8 h)
