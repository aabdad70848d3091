-- ===== src/Client/Receive/Total.antt =====
-- Receiving a response ends where the transport delivers finitely many PDUs, whatever they hold.
use msrpce_dcerpc.Base.{
  ℕ, zero, suc, ◌≤◌, ◌<◌, ◌≡◌, refl, ap, arith, Bytes, Bool, true, false, not, if◌then◌else◌, ◌==◌,
  [], ◌++◌, ok, err, fail_if, Res, Returns, >>=-Returns,
}
use msrpce_dcerpc.Base as B
use msrpce_dcerpc.Crates.{NdrCrate}
use msrpce_dcerpc.Error.{Result, invalid_pdu}
use msrpce_dcerpc.Auth.{AuthProvider}
use msrpce_dcerpc.Transport.{RpcTransport, Action, lift, >>=-eq-ok}
use msrpce_dcerpc.Transport.Ends.{Ends, returned, >>=-Ends, lift-Ends}
use msrpce_dcerpc.Transport.Finite.{IsFinite}
use msrpce_dcerpc.Pdu.Kind.{PduType}
use msrpce_dcerpc.Pdu.Kind
use msrpce_dcerpc.Pdu.Bodies.Total.{decode_response-Returns, decode_fault-Returns}
use msrpce_dcerpc.Pdu.Packet.{PduPacket, decode_packet}
use msrpce_dcerpc.Pdu.Packet.Total.{decode_packet-Returns}
use msrpce_dcerpc.Client.Packets.{RpcClient, verify_response_packet}
use msrpce_dcerpc.Client.Response.{
  Progress, done, more, take_response, take_fault, take_packet, take_pdu,
}
use msrpce_dcerpc.Client.Receive.{recv_bytes, recv_round, recv_loop, recv_response_fragments}
use msrpce_dcerpc.Client.Send.Total.{Within, with_supported_level-Returns}

take_response-Returns :
    (p : PduPacket) (stub : Bytes) (saw : Bool) → Returns (take_response p stub saw)
unfolding take_response
take_response-Returns p stub saw = ground (arith, decode_response-Returns p.body)

take_fault-Returns : (p : PduPacket) → Returns (take_fault p)
unfolding take_fault
take_fault-Returns p = ground (arith, decode_fault-Returns p.body)

take_packet-Returns :
    (t : PduType) (p : PduPacket) (stub : Bytes) (saw : Bool) → Returns (take_packet t p stub saw)
unfolding take_packet
take_packet-Returns Kind.response p stub saw = take_response-Returns p stub saw
take_packet-Returns Kind.fault p stub saw = take_fault-Returns p
take_packet-Returns _ p stub saw = tt

module _ {T P : Type 0} ⦃n : NdrCrate⦄ ⦃a : AuthProvider P⦄ where
  -- What follows the decoding of the PDU.
  checked-Returns :
      (c : RpcClient T P) (call_id : ℕ) (packet : PduPacket) (stub : Bytes) (saw : Bool)
      → Returns (
          B.◌>>◌ (verify_response_packet c) (
            B.◌>>◌
              (fail_if
                (not (packet.header.call_id == call_id))
                (invalid_pdu "response call id does not match request"))
              (take_packet packet.header.ptype packet stub saw)))
  unfolding verify_response_packet
  checked-Returns c call_id packet stub saw = ground (
    arith,
    take_packet-Returns packet.header.ptype packet stub saw,
    with_supported_level-Returns c.auth_provider tt,
  )

  take_pdu-Returns :
      (c : RpcClient T P) (call_id : ℕ) (bytes stub : Bytes) (saw : Bool)
      → Returns (take_pdu c call_id bytes stub saw)
  unfolding take_pdu
  take_pdu-Returns c call_id bytes stub saw =
      >>=-Returns (decode_packet bytes)
        (λ packet. B.◌>>◌ (verify_response_packet c) (
          B.◌>>◌
            (fail_if (not (packet.header.call_id == call_id))
              (invalid_pdu "response call id does not match request"))
            (take_packet packet.header.ptype packet stub saw)))
        (decode_packet-Returns bytes) (λ packet e. checked-Returns c call_id packet stub saw)

module _ {T P : Type 0} (remaining : T → ℕ) ⦃n : NdrCrate⦄ ⦃a : AuthProvider P⦄
    ⦃tr : RpcTransport T⦄ (fin : IsFinite tr remaining) (c : RpcClient T P) where
  -- The client after a PDU was received.
  abbrev received : RpcClient T P → RpcClient T P
  received k = record k { transport = (tr.recv_pdu k.transport).1 }

  abbrev Kept : RpcClient T P → Type 0
  Kept k = Within remaining c k

  received-Within : (k : RpcClient T P) → Kept k → Kept (received k)
  received-Within k w = record {
    left = omega (arith, fin.recv_remaining k.transport, w.left);
    same_context = w.same_context;
    same_call = w.same_call;
    same_limit = w.same_limit;
    same_provider = w.same_provider;
  }

  recv_round-Ends :
      (call_id : ℕ) (stub : Bytes) (saw : Bool) (k : RpcClient T P)
      → Kept k
      → Ends Kept (recv_round call_id stub saw k)
  unfolding recv_round recv_bytes
  recv_round-Ends call_id stub saw k w =
      >>=-Ends Kept Kept recv_bytes (λ bytes. lift (take_pdu k call_id bytes stub saw)) k
        (lift-Ends Kept (tr.recv_pdu k.transport).0 (received k) (fin.recv_returns k.transport)
          (received-Within k w))
        (λ bytes e v.
          lift-Ends Kept (take_pdu k call_id bytes stub saw) (received k)
            (take_pdu-Returns k call_id bytes stub saw) v)
        (λ v. v)

  -- A round that goes on has received a PDU.
  recv_round_falls :
      (call_id : ℕ) (stub : Bytes) (saw : Bool) (k j : RpcClient T P) {progress : Progress}
      → recv_round call_id stub saw k ≡ (ok progress, j)
      → remaining j.transport < remaining k.transport
  unfolding recv_round recv_bytes
  recv_round_falls call_id stub saw k j {progress} e =
      let (bytes, m, got, rest) =
        >>=-eq-ok recv_bytes (λ bytes. lift (take_pdu k call_id bytes stub saw)) k e in
      let came : (tr.recv_pdu k.transport).0 ≡ ok bytes =
        ap (λ (x : Result Bytes × RpcClient T P). x.0) got in
      let there : remaining (tr.recv_pdu k.transport).1 ≡ remaining m.transport =
        ap (λ (x : Result Bytes × RpcClient T P). remaining x.1.transport) got in
      let same : remaining m.transport ≡ remaining j.transport =
        ap (λ (x : Result Progress × RpcClient T P). remaining x.1.transport) rest in
      omega (arith, fin.recv_falls k.transport came)

  recv_loop-Ends :
      (rounds call_id : ℕ) (stub : Bytes) (saw : Bool) (k : RpcClient T P)
      → remaining k.transport < rounds
      → Kept k
      → Ends Kept (recv_loop rounds call_id stub saw k)
  unfolding recv_loop
  recv_loop-Ends zero call_id stub saw k enough w = elim enough [ ]
  recv_loop-Ends (suc rounds) call_id stub saw k enough w =
      >>=-Ends Kept Kept (recv_round call_id stub saw)
        (λ progress. elim progress [
          | done whole ↦ lift (ok whole)
          | more part seen ↦ recv_loop rounds call_id part seen
        ])
        k (recv_round-Ends call_id stub saw k w)
        (λ progress e v.
          loop_rest rounds call_id progress (recv_round call_id stub saw k).1
            (λ part seen u.
              recv_loop-Ends rounds call_id part seen (recv_round call_id stub saw k).1
                (omega (
                  arith,
                  recv_round_falls call_id stub saw k (recv_round call_id stub saw k).1
                      (ap (λ r. (r, (recv_round call_id stub saw k).1)) e),
                ))
                u)
            v)
        (λ v. v)
    where
      loop_rest :
          (rounds call_id : ℕ) (progress : Progress) (j : RpcClient T P)
          → ((part : Bytes) (seen : Bool)
              → Kept j
              → Ends Kept (recv_loop rounds call_id part seen j))
          → Kept j
          → Ends Kept (
              let f : Action (RpcClient T P) Bytes = elim progress [
                | done whole ↦ lift (ok whole)
                | more part seen ↦ recv_loop rounds call_id part seen
              ] in
              f j)
      loop_rest rounds call_id (done whole) j next v = returned v
      loop_rest rounds call_id (more part seen) j next v = next part seen v

  -- `recv_response_fragments` returns, with more rounds than the transport has PDUs.
  pub recv_response_fragments-Ends :
      (rounds call_id : ℕ) (k : RpcClient T P)
      → remaining k.transport < rounds
      → Kept k
      → Ends Kept (recv_response_fragments rounds call_id k)
  unfolding recv_response_fragments
  recv_response_fragments-Ends rounds call_id k enough w =
      recv_loop-Ends rounds call_id [] false k enough w
