-- ===== src/Client/Receive/Reassembly.antt =====
-- What the client makes of the PDUs of a call, whatever the fragments are: the stub is put together,
-- and a fault or a PDU of another kind ends the call.
use msrpce_dcerpc.Base.{ℕ, suc, ◌+◌, ◌<◌, Bytes, length, IsU8, IsU32, List, [], ◌∷◌, ◌++◌}
use msrpce_dcerpc.Base.{
  ok, err, ◌≡◌, ◌≢◌, refl, arith, Bool, true, false, if◌then◌else◌, append_assoc, append-nil,
}
use msrpce_dcerpc.Base.{eq→==}
use msrpce_dcerpc.Crates.{NdrCrate}
use msrpce_dcerpc.Error.{Result, invalid_pdu}
use msrpce_dcerpc.Error
use msrpce_dcerpc.Auth.{AuthProvider}
use msrpce_dcerpc.Pdu.Kind.{PduType, response, fault}
use msrpce_dcerpc.Pdu.Header.{pfc_first_frag, pfc_last_frag, new_header}
use msrpce_dcerpc.Pdu.Bodies.{
  ResponsePdu, IsWireResponse, encode_response, FaultPdu, IsWireFault, encode_fault,
}
use msrpce_dcerpc.Pdu.Bodies.RoundTrip.{decode_response-encode_response, decode_fault-encode_fault}
use msrpce_dcerpc.Pdu.Packet.{stamp, from_body_with_flags}
use msrpce_dcerpc.Pdu.Packet.RoundTrip.{wire}
use msrpce_dcerpc.Pdu.Packet.FromBody.{received, decode_packet-from_body_with_flags}
use msrpce_dcerpc.Client.Packets.{
  RpcClient, IsSupported, verify_response_packet, with_supported_level_ok,
}
use msrpce_dcerpc.Client.Response.{
  done, more, has_flag, take_response, take_fault, take_packet, take_pdu,
}
use msrpce_dcerpc.Client.Receive.{recv_bytes, recv_round, recv_loop}
use msrpce_dcerpc.Client.Receive.Queue.{Queue, queue_transport}

-- A response fragment with the flags that its packet carries.
pub record Part : Type 0 where
  pub flags : ℕ
  pub pdu : ResponsePdu

-- It fits a fragment.
pub record IsPart (p : Part) : Type 0 where
  pub small : IsU8 p.flags
  pub fields : IsWireResponse p.pdu
  pub fits : length p.pdu.stub_data + 24 < 65536

-- The first fragment has been seen: before, or now.
abbrev pub seen : Bool → Part → Bool
seen saw p = if has_flag p.flags pfc_first_frag then true else saw

-- Fragments after which the loop goes on, when `saw` is its `saw_first` before them.
abbrev pub AreOpen : Bool → List Part → Type 0
AreOpen saw [] = Unit
AreOpen saw (p ∷ ps) =
    IsPart p × (seen saw p ≡ true) × (has_flag p.flags pfc_last_frag ≡ false) × AreOpen true ps

-- `saw_first` after them.
abbrev pub seen_all : Bool → List Part → Bool
seen_all saw [] = saw
seen_all saw (p ∷ ps) = true

seen_all-true : (ps : List Part) → seen_all true ps ≡ true
seen_all-true [] = refl
seen_all-true (p ∷ ps) = refl

abbrev pub stubs : List Part → Bytes
stubs [] = []
stubs (p ∷ ps) = p.pdu.stub_data ++ stubs ps

pub length-encode_response : (p : ResponsePdu) → length (encode_response p) ≡ 8 + length p.stub_data
unfolding encode_response
length-encode_response p = omega arith

length-encode_fault : (f : FaultPdu) → length (encode_fault f) ≡ 12 + length f.stub_data
unfolding encode_fault
length-encode_fault f = omega arith

module _ ⦃n : NdrCrate⦄ where
  -- What the server sends for a part.
  abbrev pub part_wire : ℕ → Part → Bytes
  part_wire call_id p = wire (from_body_with_flags response call_id p.flags (encode_response p.pdu))

  abbrev pub part_wires : ℕ → List Part → List Bytes
  part_wires call_id [] = []
  part_wires call_id (p ∷ ps) = part_wire call_id p ∷ part_wires call_id ps

  module _ {T P : Type 0} ⦃a : AuthProvider P⦄ (c : RpcClient T P) (call_id : ℕ)
      (call : IsU32 call_id) (sup : IsSupported c.auth_provider) where
    -- A PDU of the call, by its kind and body.
    pub take_pdu_lem :
        (ptype : PduType) (flags : ℕ) (body stub : Bytes) (saw : Bool)
        → IsU8 flags
        → length body + 16 < 65536
        → take_pdu c call_id (wire (from_body_with_flags ptype call_id flags body)) stub saw
          ≡ take_packet ptype (received ptype call_id flags body) stub saw
    unfolding take_pdu verify_response_packet from_body_with_flags stamp new_header
    take_pdu_lem ptype flags body stub saw small fits =
        rw
          (
            decode_packet-from_body_with_flags ptype call_id flags body call small fits,
            with_supported_level_ok c.auth_provider tt sup,
            eq→== call_id call_id refl,
          )
          refl

    -- A response fragment is taken when the first one has been seen.
    pub take_pdu_response :
        (p : Part) (stub : Bytes) (saw : Bool)
        → IsPart p
        → seen saw p ≡ true
        → take_pdu c call_id (part_wire call_id p) stub saw
          ≡ ok (
              if has_flag p.flags pfc_last_frag
              then done (stub ++ p.pdu.stub_data)
              else more (stub ++ p.pdu.stub_data) true)
    unfolding take_packet take_response from_body_with_flags stamp new_header
    take_pdu_response p stub saw w s =
        rw
          (
            take_pdu_lem response p.flags (encode_response p.pdu) stub saw w.small
                (omega (arith, length-encode_response p.pdu)),
            s,
            decode_response-encode_response p.pdu w.fields,
          )
          refl

    -- A fault is the call's error.
    pub take_pdu_fault :
        (flags : ℕ) (f : FaultPdu) (stub : Bytes) (saw : Bool)
        → IsU8 flags
        → IsWireFault f
        → length f.stub_data + 28 < 65536
        → take_pdu c call_id
            (wire (from_body_with_flags fault call_id flags (encode_fault f)))
            stub
            saw
          ≡ err (Error.fault f.status)
    unfolding take_packet take_fault from_body_with_flags
    take_pdu_fault flags f stub saw small w fits =
        rw
          (
            take_pdu_lem fault flags (encode_fault f) stub saw small
                (omega (arith, length-encode_fault f)),
            decode_fault-encode_fault f w,
          )
          refl

    -- Any other PDU is an error.
    pub take_pdu_other :
        (ptype : PduType) (flags : ℕ) (body stub : Bytes) (saw : Bool)
        → IsU8 flags
        → length body + 16 < 65536
        → ptype ≢ response
        → ptype ≢ fault
        → take_pdu c call_id (wire (from_body_with_flags ptype call_id flags body)) stub saw
          ≡ err (invalid_pdu "expected response or fault PDU")
    unfolding take_packet
    take_pdu_other ptype flags body stub saw small fits r f =
        rw (take_pdu_lem ptype flags body stub saw small fits) (
          elim ptype
              as (λ k.
                k ≢ response
                → k ≢ fault
                → take_packet k (received ptype call_id flags body) stub saw
                  ≡ err (invalid_pdu "expected response or fault PDU")) [
                    | response ↦ λ nr nf. absurd (nr refl)
                    | fault ↦ λ nr nf. absurd (nf refl)
                    | _ ↦ λ nr nf. refl
                  ]
            r f)

  module _ {P : Type 0} ⦃a : AuthProvider P⦄ (c : RpcClient Queue P) where
    -- The client when `incoming` is still to come.
    abbrev pub waiting : List Bytes → RpcClient Queue P
    waiting incoming = record c {
      transport = record { incoming = incoming; sent = c.transport.sent };
    }

    module _ (call_id : ℕ) where
      -- A round after which the loop goes on, and one after which it ends.
      round_more :
          (rounds : ℕ) (bytes : Bytes) (rest : List Bytes) (stub stub' : Bytes) (saw saw' : Bool)
          → take_pdu (waiting (bytes ∷ rest)) call_id bytes stub saw ≡ ok (more stub' saw')
          → recv_loop (suc rounds) call_id stub saw (waiting (bytes ∷ rest))
            ≡ recv_loop rounds call_id stub' saw' (waiting rest)
      unfolding recv_loop recv_round recv_bytes
      round_more rounds bytes rest stub stub' saw saw' e = ground arith

      pub round_done :
          (rounds : ℕ) (bytes : Bytes) (rest : List Bytes) (stub stub' : Bytes) (saw : Bool)
          → take_pdu (waiting (bytes ∷ rest)) call_id bytes stub saw ≡ ok (done stub')
          → recv_loop (suc rounds) call_id stub saw (waiting (bytes ∷ rest))
            ≡ (ok stub', waiting rest)
      unfolding recv_loop recv_round recv_bytes
      round_done rounds bytes rest stub stub' saw e = ground arith

      pub round_err :
          (rounds : ℕ) (bytes : Bytes) (rest : List Bytes) (stub : Bytes) (saw : Bool)
          (x : Error.Error)
          → take_pdu (waiting (bytes ∷ rest)) call_id bytes stub saw ≡ err x
          → recv_loop (suc rounds) call_id stub saw (waiting (bytes ∷ rest)) ≡ (err x, waiting rest)
      unfolding recv_loop recv_round recv_bytes
      round_err rounds bytes rest stub saw x e = ground arith

      module _ (call : IsU32 call_id) (sup : IsSupported c.auth_provider) where
        -- The fragments that leave the loop open add their stubs to the stub so far.
        pub recv_open :
            (ps : List Part) (rest : List Bytes) (rounds : ℕ) (stub : Bytes) (saw : Bool)
            → AreOpen saw ps
            → recv_loop
                (length ps + rounds)
                call_id
                stub
                saw
                (waiting (part_wires call_id ps ++ rest))
              ≡ recv_loop rounds call_id (stub ++ stubs ps) (seen_all saw ps) (waiting rest)
        recv_open [] rest rounds stub saw w =
            let e : 0 + rounds ≡ rounds = omega arith in rw (e, append-nil stub) refl
        recv_open (p ∷ ps) rest rounds stub saw w =
            let e : suc (length ps) + rounds ≡ suc (length ps + rounds) = omega arith in
            let taken =
              take_pdu_response (waiting (part_wire call_id p ∷ (part_wires call_id ps ++ rest)))
                call_id call sup p stub saw w.0 w.1 in
            let joined : (stub ++ p.pdu.stub_data) ++ stubs ps
                ≡ stub ++ (p.pdu.stub_data ++ stubs ps) =
              append_assoc stub p.pdu.stub_data (stubs ps) in
            let kept : seen_all true ps ≡ true = seen_all-true ps in
            rw
              (
                e,
                round_more (length ps + rounds) (part_wire call_id p)
                    (part_wires call_id ps ++ rest) stub (stub ++ p.pdu.stub_data) saw true
                    (rw w.2 at taken),
              )
              (rw (joined, kept) at (recv_open ps rest rounds (stub ++ p.pdu.stub_data) true w.3))
