-- ===== src/Pdu/Bodies/Total.antt =====
-- The decoders of the bodies of src/pdu.rs return on every input: no index or slice leaves it.
use native.Mathlib.Decide.{dec_lt}
use msrpce_dcerpc.Base.{ℕ, ◌≤◌, ◌<◌, Bytes, length, uncons4, uncons8, uncons16}
use msrpce_dcerpc.Base.{Returns, [], ◌∷◌, ◌≡◌, refl, arith, lt→ltb}
use msrpce_dcerpc.Base.{Bool, true, false, Option-cases}
use msrpce_dcerpc.Crates.{UuidCrate}
use msrpce_dcerpc.Pdu.Bodies.{decode_bind, decode_request, decode_response, decode_fault}

module _ (a0 a1 a2 a3 b0 b1 b2 b3 : ℕ) (t : Bytes) where
  bind_eight-Returns : Returns (decode_bind (a0 ∷ a1 ∷ a2 ∷ a3 ∷ b0 ∷ b1 ∷ b2 ∷ b3 ∷ t))
  unfolding decode_bind
  bind_eight-Returns = ground arith

  response_eight-Returns : Returns (decode_response (a0 ∷ a1 ∷ a2 ∷ a3 ∷ b0 ∷ b1 ∷ b2 ∷ b3 ∷ t))
  unfolding decode_response
  response_eight-Returns = ground arith

  fault_twelve-Returns :
      (c0 c1 c2 c3 : ℕ) (t' : Bytes)
      → t ≡ c0 ∷ c1 ∷ c2 ∷ c3 ∷ t'
      → Returns (decode_fault (a0 ∷ a1 ∷ a2 ∷ a3 ∷ b0 ∷ b1 ∷ b2 ∷ b3 ∷ t))
  unfolding decode_fault
  fault_twelve-Returns c0 c1 c2 c3 t' e = ground arith

module _ (Uuid : Type 0) ⦃u : UuidCrate Uuid⦄ where
  request_plain-Returns :
      (a0 a1 a2 a3 b0 b1 b2 b3 : ℕ) (t : Bytes)
      → Returns (decode_request {Uuid = Uuid} (a0 ∷ a1 ∷ a2 ∷ a3 ∷ b0 ∷ b1 ∷ b2 ∷ b3 ∷ t) false)
  unfolding decode_request
  request_plain-Returns a0 a1 a2 a3 b0 b1 b2 b3 t = ground arith

  -- The sixteen bytes of the object come after the first eight.
  request_object-Returns :
      (a0 a1 a2 a3 b0 b1 b2 b3 : ℕ) (t : Bytes)
      → 16 ≤ length t
      → Returns (decode_request {Uuid = Uuid} (a0 ∷ a1 ∷ a2 ∷ a3 ∷ b0 ∷ b1 ∷ b2 ∷ b3 ∷ t) true)
  request_object-Returns a0 a1 a2 a3 b0 b1 b2 b3 =
      uncons16
        (λ t.
          Returns (decode_request {Uuid = Uuid} (a0 ∷ a1 ∷ a2 ∷ a3 ∷ b0 ∷ b1 ∷ b2 ∷ b3 ∷ t) true))
        (λ c0 c1 c2 c3 d0 d1 d2 d3 e0 e1 e2 e3 f0 f1 f2 f3 t.
          unfold decode_request in
          ground (
            arith,
            Option-cases (
                u.from_slice (
                  c0 ∷ c1 ∷ c2 ∷ c3 ∷ d0 ∷ d1 ∷ d2 ∷ d3 ∷ e0 ∷ e1 ∷ e2 ∷ e3 ∷ f0 ∷ f1 ∷ f2 ∷ f3
                  ∷ [])),
          ))

  request_short-Returns :
      (bytes : Bytes)
      → length bytes < 8
      → (b : Bool) → Returns (decode_request {Uuid = Uuid} bytes b)
  unfolding decode_request
  request_short-Returns bytes h true = rw (lt→ltb (length bytes) 24 (omega arith)) tt
  request_short-Returns bytes h false = rw (lt→ltb (length bytes) 8 h) tt

  request_no_object-Returns :
      (bytes : Bytes) → length bytes < 24 → Returns (decode_request {Uuid = Uuid} bytes true)
  unfolding decode_request
  request_no_object-Returns bytes h = rw (lt→ltb (length bytes) 24 h) tt

  request_long-Returns :
      (bytes : Bytes) (b : Bool) → 8 ≤ length bytes → Returns (decode_request {Uuid = Uuid} bytes b)
  request_long-Returns bytes false h =
      uncons8 (λ bs. Returns (decode_request {Uuid = Uuid} bs false)) request_plain-Returns bytes h
  request_long-Returns bytes true h = elim (dec_lt (length bytes) 24) [
    | yes k ↦ request_no_object-Returns bytes k
    | no k ↦
        uncons8 (λ bs. 24 ≤ length bs → Returns (decode_request {Uuid = Uuid} bs true))
          (λ a0 a1 a2 a3 b0 b1 b2 b3 t l.
            request_object-Returns a0 a1 a2 a3 b0 b1 b2 b3 t (omega arith))
          bytes h (omega arith)
  ]

-- `RequestPdu::decode` returns on every input.
pub decode_request-Returns :
    (Uuid : Type 0) ⦃u : UuidCrate Uuid⦄ (bytes : Bytes) (b : Bool)
    → Returns (decode_request {Uuid = Uuid} bytes b)
decode_request-Returns Uuid bytes b = elim (dec_lt (length bytes) 8) [
  | yes h ↦ request_short-Returns Uuid bytes h b
  | no h ↦ request_long-Returns Uuid bytes b (omega arith)
]

bind_short : (bytes : Bytes) → length bytes < 8 → Returns (decode_bind bytes)
unfolding decode_bind
bind_short bytes h = rw (lt→ltb (length bytes) 8 h) tt

pub decode_bind-Returns : (bytes : Bytes) → Returns (decode_bind bytes)
decode_bind-Returns bytes = elim (dec_lt (length bytes) 8) [
  | yes h ↦ bind_short bytes h
  | no h ↦ uncons8 (λ bs. Returns (decode_bind bs)) bind_eight-Returns bytes (omega arith)
]

response_short : (bytes : Bytes) → length bytes < 8 → Returns (decode_response bytes)
unfolding decode_response
response_short bytes h = rw (lt→ltb (length bytes) 8 h) tt

pub decode_response-Returns : (bytes : Bytes) → Returns (decode_response bytes)
decode_response-Returns bytes = elim (dec_lt (length bytes) 8) [
  | yes h ↦ response_short bytes h
  | no h ↦ uncons8 (λ bs. Returns (decode_response bs)) response_eight-Returns bytes (omega arith)
]

fault_short : (bytes : Bytes) → length bytes < 12 → Returns (decode_fault bytes)
unfolding decode_fault
fault_short bytes h = rw (lt→ltb (length bytes) 12 h) tt

fault_long :
    (a0 a1 a2 a3 b0 b1 b2 b3 : ℕ) (t : Bytes)
    → 4 ≤ length t
    → Returns (decode_fault (a0 ∷ a1 ∷ a2 ∷ a3 ∷ b0 ∷ b1 ∷ b2 ∷ b3 ∷ t))
fault_long a0 a1 a2 a3 b0 b1 b2 b3 =
    uncons4 (λ t. Returns (decode_fault (a0 ∷ a1 ∷ a2 ∷ a3 ∷ b0 ∷ b1 ∷ b2 ∷ b3 ∷ t)))
      (λ c0 c1 c2 c3 t.
        fault_twelve-Returns a0 a1 a2 a3 b0 b1 b2 b3 (c0 ∷ c1 ∷ c2 ∷ c3 ∷ t) c0 c1 c2 c3 t refl)

pub decode_fault-Returns : (bytes : Bytes) → Returns (decode_fault bytes)
decode_fault-Returns bytes = elim (dec_lt (length bytes) 12) [
  | yes h ↦ fault_short bytes h
  | no h ↦
      uncons8 (λ bs. 12 ≤ length bs → Returns (decode_fault bs))
        (λ a0 a1 a2 a3 b0 b1 b2 b3 t l. fault_long a0 a1 a2 a3 b0 b1 b2 b3 t (omega arith)) bytes
        (omega arith) (omega arith)
]
