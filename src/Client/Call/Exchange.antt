-- ===== src/Client/Call/Exchange.antt =====
-- A whole call: what goes out, what comes in, and what the caller gets.
use msrpce_dcerpc.Base.{
  ℕ, suc, ◌+◌, ◌-◌, ◌<◌, Bytes, length, IsU16, IsU32, List, [], ◌∷◌, ◌++◌, ok, ◌≡◌, refl, ◌∙◌,
}
use msrpce_dcerpc.Base.{arith, true, false, append_assoc, append-nil}
use msrpce_dcerpc.Crates.{NdrCrate, UuidCrate}
use msrpce_dcerpc.Auth.{AuthProvider}
use msrpce_dcerpc.Pdu.Header.{pfc_last_frag}
use msrpce_dcerpc.Client.Packets.{RpcClient, IsSupported, following_call_id, next_call_id}
use msrpce_dcerpc.Client.Response.{has_flag}
use msrpce_dcerpc.Client.Send.{send_request_fragments}
use msrpce_dcerpc.Client.Send.Chunks.{fragments}
use msrpce_dcerpc.Client.Send.Step.{send_all, fragment_wires, fragment_wires_same}
use msrpce_dcerpc.Client.Send.Refines.{send_request_fragments_lem}
use msrpce_dcerpc.Client.Receive.Queue.{Queue, queue_transport}
use msrpce_dcerpc.Client.Receive.Reassembly.{
  Part, IsPart, seen, AreOpen, seen_all, stubs, part_wire, part_wires, waiting,
}
use msrpce_dcerpc.Client.Receive.Outcomes.{recv_response_fragments-response}
use msrpce_dcerpc.Client.Call.{call_raw}

-- A queue takes all that it is sent.
send_all_queue :
    (ws : List Bytes) (q : Queue) → send_all ws q ≡ (ok tt, record q { sent = q.sent ++ ws })
unfolding send_all
send_all_queue [] q = rw (append-nil q.sent) refl
send_all_queue (w ∷ ws) q =
    rw (append_assoc q.sent (w ∷ []) ws) at
      (send_all_queue ws (record q { sent = q.sent ++ (w ∷ []) }))

module _ {P : Type 0} (Uuid : Type 0) ⦃n : NdrCrate⦄ ⦃u : UuidCrate Uuid⦄ ⦃a : AuthProvider P⦄
    (c : RpcClient Queue P) (call : IsU32 c.call_id) (sup : IsSupported c.auth_provider)
    (room : 24 < c.max_xmit_frag) (small : IsU16 c.max_xmit_frag) where
  -- The PDUs that a call sends.
  abbrev pub outgoing : ℕ → Bytes → List Bytes
  outgoing opnum stub =
      fragment_wires Uuid c c.call_id opnum (length stub) (fragments (c.max_xmit_frag - 24) stub)

  -- The client when the call's PDUs are sent and `incoming` is still to come.
  abbrev pub called : ℕ → Bytes → List Bytes → RpcClient Queue P
  called opnum stub incoming = record c {
    transport = record { incoming = incoming; sent = c.transport.sent ++ outgoing opnum stub };
    call_id = following_call_id c.call_id;
  }

  sends :
      (opnum : ℕ) (stub : Bytes) (incoming : List Bytes)
      → send_request_fragments Uuid c.call_id opnum stub
          (record (waiting c incoming) { call_id = following_call_id c.call_id })
        ≡ (ok tt, called opnum stub incoming)
  sends opnum stub incoming =
      let k = record (waiting c incoming) { call_id = following_call_id c.call_id } in
      let same =
        fragment_wires_same Uuid k c c.call_id opnum (length stub)
          (fragments (c.max_xmit_frag - 24) stub) refl in
      send_request_fragments_lem Uuid k c.call_id opnum stub sup room small
      ∙ rw
          (
            same,
            send_all_queue (outgoing opnum stub)
                (record { incoming = incoming; sent = c.transport.sent }),
          )
          refl

  -- A call over a channel that delivers a response to it, in any number of fragments: `call_raw`
  -- sends the fragments of the request's stub in order and nothing else, returns the response's
  -- stub, leaves the later PDUs unread and goes on to the following call id. The call id has 32
  -- bits, the level is supported, a fragment has room for a byte, each part of the response fits a
  -- fragment, and there are rounds for each of them.
  pub call_raw-response :
      (opnum : ℕ) (stub : Bytes) (ps : List Part) (last : Part) (rest : List Bytes) (rounds : ℕ)
      → AreOpen false ps
      → IsPart last
      → seen (seen_all false ps) last ≡ true
      → has_flag last.flags pfc_last_frag ≡ true
      → call_raw Uuid
          (length ps + suc rounds)
          opnum
          stub
          (waiting c (part_wires c.call_id ps ++ (part_wire c.call_id last ∷ rest)))
        ≡ (ok (stubs ps ++ last.pdu.stub_data), called opnum stub rest)
  unfolding call_raw next_call_id
  call_raw-response opnum stub ps last rest rounds w wl s l =
      let incoming = part_wires c.call_id ps ++ (part_wire c.call_id last ∷ rest) in
      ground (
        arith,
        sends opnum stub incoming,
        recv_response_fragments-response (called opnum stub rest) c.call_id call sup ps last rest
            rounds w wl s l,
      )
