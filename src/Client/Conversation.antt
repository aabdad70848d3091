-- ===== src/Client/Conversation.antt =====
-- A whole conversation: a bind and a call over one channel, as the client and the peer see it.
use mathlib.Core.Path.{subst}
use msrpce_dcerpc.Base.{
  ℕ, suc, ◌+◌, ◌<◌, Bytes, length, IsU8, IsU16, IsU32, List, [], ◌∷◌, ◌++◌, All, none, ok, err,
  ◌>>=◌, ◌≡◌, refl, arith, true, false,
}
use msrpce_dcerpc.Crates.{NdrCrate, UuidCrate}
use msrpce_dcerpc.Error.{Result, invalid_pdu}
use msrpce_dcerpc.Auth.{AuthProvider}
use msrpce_dcerpc.Pdu.Header.{pfc_last_frag}
use msrpce_dcerpc.Pdu.Bodies.{BindPdu, IsWireBind, encode_bind, decode_bind}
use msrpce_dcerpc.Pdu.Bodies.RoundTrip.{decode_bind-encode_bind}
use msrpce_dcerpc.Pdu.Packet.{decode_packet, new_packet}
use msrpce_dcerpc.Pdu.Packet.RoundTrip.{wire, decode_packet-encode_packet}
use msrpce_dcerpc.Bind.Context.{PresentationContext, bind_with_contexts, bind_contexts}
use msrpce_dcerpc.Bind.Context.RoundTrip.{IsWireContext, bind_contexts-bind_with_contexts}
use msrpce_dcerpc.Bind.Ack.{BindAckPdu, AcceptedContext}
use msrpce_dcerpc.Bind.Ack.Accept.{Accepts}
use msrpce_dcerpc.Bind.Ack.RoundTrip.{IsWireAck, wire_ack}
use msrpce_dcerpc.Client.Packets.{RpcClient, default_max_xmit_frag}
use msrpce_dcerpc.Client.Response.{has_flag}
use msrpce_dcerpc.Client.Send.Peer.{read_requests, request_stubs, read_requests_lem}
use msrpce_dcerpc.Client.Receive.Queue.{Queue, queue_transport}
use msrpce_dcerpc.Client.Receive.Reassembly.{
  Part, IsPart, seen, AreOpen, seen_all, stubs, part_wire, part_wires,
}
use msrpce_dcerpc.Client.Call.{call_raw}
use msrpce_dcerpc.Client.Call.Exchange.{called, call_raw-response}
use msrpce_dcerpc.Client.Bind.{bind_with_contexts_inner}
use msrpce_dcerpc.Client.Bind.Exchange.{
  plain_bind, plain_bind-IsWirePacket, ack_bytes, bound_client, bind_with_contexts_inner-accepted,
}

made-IsWireBind :
    (b : BindPdu)
    → b.max_xmit_frag ≡ 4280
    → b.max_recv_frag ≡ 4280
    → b.assoc_group_id ≡ 0
    → IsWireBind b
made-IsWireBind b e f g = omega arith

module _ {Uuid : Type 0} ⦃n : NdrCrate⦄ ⦃u : UuidCrate Uuid⦄ where
  -- What the peer reads of all that it was sent: the contexts of the bind, and the stub of the
  -- requests that follow it.
  abbrev pub read_conversation : List Bytes → Result (List (PresentationContext Uuid) × Bytes)
  read_conversation [] = err (invalid_pdu "no bind")
  read_conversation (b ∷ bs) = do
    p ← decode_packet b
    bind ← decode_bind p.body
    contexts ← bind_contexts bind
    rs ← read_requests {Uuid = Uuid} bs
    ok (contexts, request_stubs rs)

  -- The bind, as the peer reads it.
  read_bind :
      (cs : List (PresentationContext Uuid)) (b : BindPdu)
      → bind_with_contexts default_max_xmit_frag default_max_xmit_frag 0 cs ≡ ok b
      → All IsWireContext cs
      → length cs < 256
      → (decode_bind (encode_bind b) ≡ ok b) × (bind_contexts b ≡ ok cs)
  read_bind cs b made w few =
      let (p, made', e, f, g, found) =
        bind_contexts-bind_with_contexts default_max_xmit_frag default_max_xmit_frag 0 cs w few in
      let same : p ≡ b = cc (made, made') in
      let wire_bind : IsWireBind p = made-IsWireBind p e f g in
      subst (λ (r : BindPdu). (decode_bind (encode_bind r) ≡ ok r) × (bind_contexts r ≡ ok cs)) same
        (decode_bind-encode_bind p wire_bind, found)

module _ {P : Type 0} (Uuid : Type 0) ⦃n : NdrCrate⦄ ⦃u : UuidCrate Uuid⦄ ⦃a : AuthProvider P⦄ where
  -- A bind without a provider and a call over a channel that delivers an accepting acknowledgement
  -- and then a response of the call in any number of fragments: both succeed, the caller gets the
  -- response's stub, the PDUs behind the response are left, and of all that was sent the peer reads
  -- exactly the contexts that were proposed and the stub of the request. The contexts, the
  -- acknowledgement, the parts of the response and the numbers are in their ranges, the bind and
  -- the acknowledgement each fit a fragment, a fragment of the acknowledged size has room for a
  -- byte, and there are rounds for each part.
  pub conversation :
      (x : PresentationContext Uuid) (xs : List (PresentationContext Uuid)) (b : BindPdu)
      (ack : BindAckPdu Uuid) (pad : Bytes) (r0 r1 r2 flags : ℕ) (accepted : AcceptedContext Uuid)
      (opnum : ℕ) (stub : Bytes) (ps : List Part) (last : Part) (rest : List Bytes) (rounds : ℕ)
      → All IsWireContext (x ∷ xs)
      → length (x ∷ xs) < 256
      → bind_with_contexts default_max_xmit_frag default_max_xmit_frag 0 (x ∷ xs) ≡ ok b
      → length (encode_bind b) + 16 < 65536
      → IsWireAck ack pad
      → IsU8 flags
      → length (wire_ack ack pad r0 r1 r2) + 16 < 65536
      → Accepts ack.results (x ∷ xs) 0 accepted
      → 24 < ack.max_xmit_frag
      → IsU16 accepted.context_id
      → IsU16 opnum
      → AreOpen false ps
      → IsPart last
      → seen (seen_all false ps) last ≡ true
      → has_flag last.flags pfc_last_frag ≡ true
      → (c k : RpcClient Queue P) × (q : Queue) × (bind_with_contexts_inner (x ∷ xs) none (record {
        incoming =
            ack_bytes ack pad r0 r1 r2 flags ∷ (part_wires 2 ps ++ (part_wire 2 last ∷ rest));
        sent = [];
      })
          ≡ (ok c, q))
        × (call_raw Uuid (length ps + suc rounds) opnum stub c
            ≡ (ok (stubs ps ++ last.pdu.stub_data), k))
        × (k.transport.incoming ≡ rest)
        × (read_conversation k.transport.sent ≡ ok (x ∷ xs, stub))
  unfolding decode_bind new_packet
  conversation x xs b ack pad r0 r1 r2 flags accepted opnum stub ps last rest rounds w few made fits
        wa small ack_fits chosen room ctx op open_parts wl s l =
      let q : Queue = record {
        incoming = part_wires 2 ps ++ (part_wire 2 last ∷ rest);
        sent = wire (plain_bind b) ∷ [];
      } in
      let c : RpcClient Queue P = bound_client ack accepted q in
      let call2 : IsU32 2 = omega arith in
      let peer = read_requests_lem Uuid c 2 opnum stub call2 ctx op room wa.xmit in
      let seen_bind = read_bind (x ∷ xs) b made w few in
      (
        c,
        called Uuid c call2 tt room wa.xmit opnum stub rest,
        q,
        bind_with_contexts_inner-accepted x xs ack pad r0 r1 r2 flags accepted wa small ack_fits
            chosen b (part_wires 2 ps ++ (part_wire 2 last ∷ rest)) [] made fits,
        call_raw-response Uuid c call2 tt room wa.xmit opnum stub ps last rest rounds open_parts wl
            s l,
        refl,
        rw
            (
              (decode_packet-encode_packet (plain_bind b) (plain_bind-IsWirePacket b fits)).1,
              seen_bind.0,
              seen_bind.1,
              peer.0,
              peer.1,
            )
            refl,
      )
