-- ===== src/NcacnNp/Conversation.antt =====
-- A bind and a call over a named pipe: the client of src/client.rs on the transport of
-- src/ncacn_np.rs.
use mathlib.Core.Path.{subst}
use msrpce_dcerpc.Base.{
  ℕ, suc, ◌+◌, ◌<◌, Bytes, length, IsU8, IsU16, List, [], ◌∷◌, ◌++◌, All, none, ok, ◌≡◌, sym, true,
  false,
}
use msrpce_dcerpc.Crates.{NdrCrate, UuidCrate}
use msrpce_dcerpc.Auth.{AuthProvider}
use msrpce_dcerpc.Transport.Simulation.{Agree-ok, Same}
use msrpce_dcerpc.Pdu.Header.{pfc_last_frag}
use msrpce_dcerpc.Pdu.Bodies.{BindPdu, encode_bind}
use msrpce_dcerpc.Bind.Context.{PresentationContext, bind_with_contexts}
use msrpce_dcerpc.Bind.Context.RoundTrip.{IsWireContext}
use msrpce_dcerpc.Bind.Ack.{BindAckPdu, AcceptedContext}
use msrpce_dcerpc.Bind.Ack.Accept.{Accepts}
use msrpce_dcerpc.Bind.Ack.RoundTrip.{IsWireAck, wire_ack}
use msrpce_dcerpc.Client.Packets.{RpcClient, default_max_xmit_frag}
use msrpce_dcerpc.Client.Response.{has_flag}
use msrpce_dcerpc.Client.Receive.Queue.{Queue, queue_transport}
use msrpce_dcerpc.Client.Receive.Reassembly.{
  Part, IsPart, seen, AreOpen, seen_all, stubs, part_wire, part_wires,
}
use msrpce_dcerpc.Client.Call.{call_raw}
use msrpce_dcerpc.Client.Bind.{bind_with_contexts_inner}
use msrpce_dcerpc.Client.Bind.Exchange.{ack_bytes}
use msrpce_dcerpc.Client.Conversation.{read_conversation, conversation}
use msrpce_dcerpc.Client.Simulation.{Paired}
use msrpce_dcerpc.Client.Simulation.Call.{call_raw-Agree}
use msrpce_dcerpc.Client.Simulation.Bind.{bind_with_contexts_inner-Agree}
use msrpce_dcerpc.NcacnNp.{NamedPipe, pipe_transport}
use msrpce_dcerpc.NcacnNp.Simulation.{IsByteStream, Carries, pipe_transport-Simulates}

module _ {S P : Type 0} (Uuid : Type 0) (input output : S → Bytes) ⦃n : NdrCrate⦄
    ⦃u : UuidCrate Uuid⦄ ⦃a : AuthProvider P⦄ ⦃p : NamedPipe S⦄
    (reliable : IsByteStream p input output) where
  -- What succeeds over a queue succeeds over a pipe that carries it.
  over_pipe :
      (proposed : List (PresentationContext Uuid)) (rounds opnum : ℕ) (stub answer : Bytes)
      (q0 q : Queue) (c k : RpcClient Queue P) (s : S)
      → Carries input output q0 s
      → bind_with_contexts_inner proposed none q0 ≡ (ok c, q)
      → call_raw Uuid rounds opnum stub c ≡ (ok answer, k)
      → (c' k' : RpcClient S P) × (t : S) × (bind_with_contexts_inner ⦃tr = pipe_transport⦄ proposed
            none s
          ≡ (ok c', t))
        × (call_raw Uuid ⦃tr = pipe_transport⦄ rounds opnum stub c' ≡ (ok answer, k'))
        × Carries input output k.transport k'.transport
  over_pipe proposed rounds opnum stub answer q0 q c k s w bound called =
      let R = Carries input output in
      let sim = pipe_transport-Simulates input output reliable in
      let (c', t, bound', pair, r) =
        Agree-ok (λ (c : RpcClient Queue P) (k : RpcClient S P). Paired R c k) R
          (rw bound at (
            bind_with_contexts_inner-Agree R ⦃a = a⦄ ⦃tr' = pipe_transport⦄ sim proposed none q0 s
              w)) in
      let (answer', k', called', same, pair') =
        Agree-ok Same (λ (c : RpcClient Queue P) (k : RpcClient S P). Paired R c k)
          (rw called at (
            call_raw-Agree Uuid R ⦃a = a⦄ ⦃tr' = pipe_transport⦄ sim rounds opnum stub c c'
              pair)) in
      (c', k', t, bound', rw (sym same) at called', pair'.related)

  -- A bind without a provider and a call over a reliable named pipe that holds the bytes of an
  -- accepting acknowledgement, of a response to the call in any number of fragments, and of further
  -- PDUs: both succeed, the caller gets the response's stub, the further PDUs are still in the pipe,
  -- and the bytes that went into it are those of PDUs in which the peer reads exactly the contexts
  -- that were proposed and the stub of the request. The contexts, the acknowledgement, the parts of
  -- the response and the numbers are in their ranges, the bind and the acknowledgement each fit a
  -- fragment, a fragment of the acknowledged size has room for a byte, and there are rounds for each
  -- part.
  pub conversation_over_pipe :
      (x : PresentationContext Uuid) (xs : List (PresentationContext Uuid)) (b : BindPdu)
      (ack : BindAckPdu Uuid) (pad : Bytes) (r0 r1 r2 flags : ℕ) (accepted : AcceptedContext Uuid)
      (opnum : ℕ) (stub : Bytes) (ps : List Part) (last : Part) (rest : List Bytes) (rounds : ℕ)
      (s : S)
      → Carries input output
          (record {
            incoming =
                ack_bytes ack pad r0 r1 r2 flags ∷ (part_wires 2 ps ++ (part_wire 2 last ∷ rest));
            sent = [];
          })
          s
      → All IsWireContext (x ∷ xs)
      → length (x ∷ xs) < 256
      → bind_with_contexts default_max_xmit_frag default_max_xmit_frag 0 (x ∷ xs) ≡ ok b
      → length (encode_bind b) + 16 < 65536
      → IsWireAck ack pad
      → IsU8 flags
      → length (wire_ack ack pad r0 r1 r2) + 16 < 65536
      → Accepts ack.results (x ∷ xs) 0 accepted
      → 24 < ack.max_xmit_frag
      → IsU16 accepted.context_id
      → IsU16 opnum
      → AreOpen false ps
      → IsPart last
      → seen (seen_all false ps) last ≡ true
      → has_flag last.flags pfc_last_frag ≡ true
      → (c k : RpcClient S P) × (t : S) × (sent : List Bytes) × (bind_with_contexts_inner
            ⦃tr = pipe_transport⦄
            (x ∷ xs)
            none
            s
          ≡ (ok c, t))
        × (call_raw Uuid ⦃tr = pipe_transport⦄ (length ps + suc rounds) opnum stub c
            ≡ (ok (stubs ps ++ last.pdu.stub_data), k))
        × Carries input output (record { incoming = rest; sent = sent }) k.transport
        × (read_conversation sent ≡ ok (x ∷ xs, stub))
  conversation_over_pipe x xs b ack pad r0 r1 r2 flags accepted opnum stub ps last rest rounds s
        carried w few made fits wa small ack_fits chosen room ctx op open_parts wl seen_first ends =
      let (c, k, q, bound, called, left, read) =
        conversation {P = P} Uuid x xs b ack pad r0 r1 r2 flags accepted opnum stub ps last rest
          rounds w few made fits wa small ack_fits chosen room ctx op open_parts wl seen_first
          ends in
      let (c', k', t, bound', called', carried') =
        over_pipe (x ∷ xs) (length ps + suc rounds) opnum stub (stubs ps ++ last.pdu.stub_data)
          (record {
            incoming =
                ack_bytes ack pad r0 r1 r2 flags ∷ (part_wires 2 ps ++ (part_wire 2 last ∷ rest));
            sent = [];
          })
          q c k s carried bound called in
      (
        c',
        k',
        t,
        k.transport.sent,
        bound',
        called',
        subst
            (λ (incoming : List Bytes).
              Carries input output (record { incoming = incoming; sent = k.transport.sent })
                k'.transport)
            left carried',
        read,
      )
