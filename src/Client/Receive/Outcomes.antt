-- ===== src/Client/Receive/Outcomes.antt =====
-- How a call ends: with the whole stub, with the fault's status, or with an error that names what
-- is wrong.
use msrpce_dcerpc.Base.{ℕ, suc, ◌+◌, ◌<◌, Bytes, length, IsU8, IsU32, List, [], ◌∷◌, ◌++◌}
use msrpce_dcerpc.Base.{ok, err, ◌≡◌, ◌≢◌, refl, ◌∙◌, Bool, true, false}
use msrpce_dcerpc.Base.{ne→==}
use msrpce_dcerpc.Crates.{NdrCrate}
use msrpce_dcerpc.Error.{Result, invalid_pdu}
use msrpce_dcerpc.Error
use msrpce_dcerpc.Auth.{AuthProvider}
use msrpce_dcerpc.Pdu.Kind.{PduType, response, fault}
use msrpce_dcerpc.Pdu.Header.{pfc_last_frag}
use msrpce_dcerpc.Pdu.Bodies.{FaultPdu, IsWireFault, encode_fault}
use msrpce_dcerpc.Pdu.Packet.{PduPacket, decode_packet, from_body_with_flags}
use msrpce_dcerpc.Pdu.Packet.RoundTrip.{wire}
use msrpce_dcerpc.Client.Packets.{
  RpcClient, IsSupported, verify_response_packet, with_supported_level_ok,
}
use msrpce_dcerpc.Client.Response.{has_flag, take_pdu}
use msrpce_dcerpc.Client.Receive.{recv_loop, recv_response_fragments}
use msrpce_dcerpc.Client.Receive.Queue.{Queue, queue_transport}
use msrpce_dcerpc.Client.Receive.Reassembly.{
  Part, IsPart, seen, AreOpen, seen_all, stubs, part_wire, part_wires, take_pdu_response,
  take_pdu_fault, take_pdu_other, waiting, round_done, round_err, recv_open,
}
use msrpce_dcerpc.Base.{arith}
use msrpce_dcerpc.Client.Receive.Reassembly.{take_pdu_lem, length-encode_response}
use msrpce_dcerpc.Client.Response.{take_packet, take_response}
use msrpce_dcerpc.Pdu.Bodies.{encode_response}
use msrpce_dcerpc.Pdu.Packet.{stamp}
use msrpce_dcerpc.Pdu.Header.{new_header}

module _ {P : Type 0} ⦃n : NdrCrate⦄ ⦃a : AuthProvider P⦄ (c : RpcClient Queue P) (call_id : ℕ)
    (call : IsU32 call_id) (sup : IsSupported c.auth_provider) where
  -- What follows the open fragments decides.
  after_open :
      (ps : List Part) (rest : List Bytes) (rounds : ℕ) {r : Result Bytes × RpcClient Queue P}
      → AreOpen false ps
      → recv_loop rounds call_id (stubs ps) (seen_all false ps) (waiting c rest) ≡ r
      → recv_response_fragments
          (length ps + rounds)
          call_id
          (waiting c (part_wires call_id ps ++ rest))
        ≡ r
  unfolding recv_response_fragments
  after_open ps rest rounds w e = recv_open c call_id call sup ps rest rounds [] false w ∙ e

  -- A response in any number of fragments, the first marked as the first, the last and no other
  -- marked as the last, each of at most 65535 bytes, is put together: `recv_response_fragments`
  -- returns the fragments' stubs in their order and leaves the PDUs behind them unread, for a call
  -- id of 32 bits, a supported level and rounds for each fragment.
  pub recv_response_fragments-response :
      (ps : List Part) (last : Part) (rest : List Bytes) (rounds : ℕ)
      → AreOpen false ps
      → IsPart last
      → seen (seen_all false ps) last ≡ true
      → has_flag last.flags pfc_last_frag ≡ true
      → recv_response_fragments
          (length ps + suc rounds)
          call_id
          (waiting c (part_wires call_id ps ++ (part_wire call_id last ∷ rest)))
        ≡ (ok (stubs ps ++ last.pdu.stub_data), waiting c rest)
  recv_response_fragments-response ps last rest rounds w wl s l =
      let b = part_wire call_id last in
      after_open ps (b ∷ rest) (suc rounds) w (
        round_done c call_id rounds b rest (stubs ps) (stubs ps ++ last.pdu.stub_data)
          (seen_all false ps)
          (rw l at (
            take_pdu_response (waiting c (b ∷ rest)) call_id call sup last (stubs ps)
              (seen_all false ps) wl s)))

  -- A fault of the call, whatever its flags, after fragments that do not end the response, is
  -- returned as `Error::Fault` with its status, and the PDUs behind it are left: for a call id of
  -- 32 bits, a supported level, and a fault that fits a fragment.
  pub recv_response_fragments-fault :
      (ps : List Part) (flags : ℕ) (f : FaultPdu) (rest : List Bytes) (rounds : ℕ)
      → AreOpen false ps
      → IsU8 flags
      → IsWireFault f
      → length f.stub_data + 28 < 65536
      → recv_response_fragments (length ps + suc rounds) call_id (
          waiting c (
            part_wires call_id ps
            ++ (wire (from_body_with_flags fault call_id flags (encode_fault f)) ∷ rest)))
        ≡ (err (Error.fault f.status), waiting c rest)
  recv_response_fragments-fault ps flags f rest rounds w small wf fits =
      let b = wire (from_body_with_flags fault call_id flags (encode_fault f)) in
      after_open ps (b ∷ rest) (suc rounds) w (
        round_err c call_id rounds b rest (stubs ps) (seen_all false ps) (Error.fault f.status) (
          take_pdu_fault (waiting c (b ∷ rest)) call_id call sup flags f (stubs ps)
            (seen_all false ps) small wf fits))

  -- A PDU of the call that is neither a response nor a fault, after fragments that do not end the
  -- response, ends the call with an error: for a call id of 32 bits, a supported level, and a PDU
  -- that fits a fragment.
  pub recv_response_fragments-other :
      (ps : List Part) (ptype : PduType) (flags : ℕ) (body : Bytes) (rest : List Bytes) (rounds : ℕ)
      → AreOpen false ps
      → IsU8 flags
      → length body + 16 < 65536
      → ptype ≢ response
      → ptype ≢ fault
      → recv_response_fragments (length ps + suc rounds) call_id (
          waiting c (
            part_wires call_id ps ++ (wire (from_body_with_flags ptype call_id flags body) ∷ rest)))
        ≡ (err (invalid_pdu "expected response or fault PDU"), waiting c rest)
  recv_response_fragments-other ps ptype flags body rest rounds w small fits nr nf =
      let b = wire (from_body_with_flags ptype call_id flags body) in
      after_open ps (b ∷ rest) (suc rounds) w (
        round_err c call_id rounds b rest (stubs ps) (seen_all false ps)
          (invalid_pdu "expected response or fault PDU")
          (take_pdu_other (waiting c (b ∷ rest)) call_id call sup ptype flags body (stubs ps)
            (seen_all false ps) small fits nr nf))

  take_pdu_call_id :
      (k : RpcClient Queue P) (bytes : Bytes) (p : PduPacket) (stub : Bytes) (saw : Bool)
      → IsSupported k.auth_provider
      → decode_packet bytes ≡ ok p
      → p.header.call_id ≢ call_id
      → take_pdu k call_id bytes stub saw
        ≡ err (invalid_pdu "response call id does not match request")
  unfolding take_pdu verify_response_packet
  take_pdu_call_id k bytes p stub saw sk d ne =
      rw (d, with_supported_level_ok k.auth_provider tt sk, ne→== p.header.call_id call_id ne) refl

  -- A PDU with another call id, after fragments that do not end the response, ends the call with
  -- an error, whatever else it holds: for a call id of 32 bits and a supported level.
  pub recv_response_fragments_mismatch :
      (ps : List Part) (bytes : Bytes) (p : PduPacket) (rest : List Bytes) (rounds : ℕ)
      → AreOpen false ps
      → decode_packet bytes ≡ ok p
      → p.header.call_id ≢ call_id
      → recv_response_fragments
          (length ps + suc rounds)
          call_id
          (waiting c (part_wires call_id ps ++ (bytes ∷ rest)))
        ≡ (err (invalid_pdu "response call id does not match request"), waiting c rest)
  recv_response_fragments_mismatch ps bytes p rest rounds w d ne =
      after_open ps (bytes ∷ rest) (suc rounds) w (
        round_err c call_id rounds bytes rest (stubs ps) (seen_all false ps)
          (invalid_pdu "response call id does not match request")
          (take_pdu_call_id (waiting c (bytes ∷ rest)) bytes p (stubs ps) (seen_all false ps) sup d
            ne))

  take_pdu_headless :
      (k : RpcClient Queue P) (p : Part) (stub : Bytes)
      → IsSupported k.auth_provider
      → IsPart p
      → seen false p ≡ false
      → take_pdu k call_id (part_wire call_id p) stub false
        ≡ err (invalid_pdu "response is missing first fragment")
  unfolding take_packet take_response from_body_with_flags stamp new_header
  take_pdu_headless k p stub sk w s =
      rw
        (
          take_pdu_lem k call_id call sk response p.flags (encode_response p.pdu) stub false w.small
              (omega (arith, length-encode_response p.pdu)),
          s,
        )
        refl

  -- A response whose first PDU is not marked as the first fragment is refused, for a call id of 32
  -- bits, a supported level and a PDU that fits a fragment.
  pub recv_response_fragments_headless :
      (p : Part) (rest : List Bytes) (rounds : ℕ)
      → IsPart p
      → seen false p ≡ false
      → recv_response_fragments (suc rounds) call_id (waiting c (part_wire call_id p ∷ rest))
        ≡ (err (invalid_pdu "response is missing first fragment"), waiting c rest)
  unfolding recv_response_fragments
  recv_response_fragments_headless p rest rounds w s =
      let b = part_wire call_id p in
      round_err c call_id rounds b rest [] false (invalid_pdu "response is missing first fragment")
        (take_pdu_headless (waiting c (b ∷ rest)) p [] sup w s)
