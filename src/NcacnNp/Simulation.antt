-- ===== src/NcacnNp/Simulation.antt =====
-- A named pipe carries PDUs as the queue of examples/in_memory_bind_call.rs does: the transport over
-- it simulates the queue.
use mathlib.Core.Path.{subst}
use msrpce_dcerpc.Base.{
  ℕ, ◌+◌, ◌-◌, ◌≤◌, ◌<◌, Bytes, length, take, drop, concat, List, [], ◌∷◌, ◌++◌, All, ok, err, ◌≡◌,
  refl, sym, ap, ◌∙◌, arith, String, append_assoc, append-nil, length-append, take_left, drop_left,
  ltb, false,
}
use msrpce_dcerpc.Crates.{NdrCrate}
use msrpce_dcerpc.Error.{Result}
use msrpce_dcerpc.Error
use msrpce_dcerpc.Transport.Simulation.{Agree, returned, failed, transports, Same, Simulates}
use msrpce_dcerpc.Pdu.Header.{PduHeader, encode_header, IsWireHeader}
use msrpce_dcerpc.Pdu.Header.RoundTrip.{decode_header-encode_header, length-encode_header}
use msrpce_dcerpc.Pdu.Packet.{PduPacket, stamp, trailer_bytes}
use msrpce_dcerpc.Pdu.Packet.RoundTrip.{IsWirePacket, wire, stamp-IsWireHeader}
use msrpce_dcerpc.Client.Receive.Queue.{Queue, queue_transport}
use msrpce_dcerpc.NcacnNp.{NamedPipe, pipe_send_pdu, pipe_recv_pdu, pipe_transport}
use msrpce_dcerpc.NcacnNp.Framing.{wires, stream, stamp_frag_length}

-- What the theorem takes of a pipe, as `Read::read_exact` and `Write::write_all` document it: bytes
-- come in order, a read of more than is left fails, and nothing that is written is lost.
pub record IsByteStream {S : Type 0} (p : NamedPipe S) (input output : S → Bytes) : Type 0 where
  pub read_bytes :
      (k : ℕ) (s : S) → k ≤ length (input s) → (p.read_exact k s).0 ≡ ok (take k (input s))
  pub read_rest :
      (k : ℕ) (s : S) → k ≤ length (input s) → input (p.read_exact k s).1 ≡ drop k (input s)
  pub read_fails :
      (k : ℕ) (s : S)
      → length (input s) < k
      → (m : String) × ((p.read_exact k s).0 ≡ err (Error.transport m))
  pub read_nothing : (k : ℕ) (s : S) → input s ≡ [] → input (p.read_exact k s).1 ≡ []
  pub read_output : (k : ℕ) (s : S) → output (p.read_exact k s).1 ≡ output s
  pub write_returns : (b : Bytes) (s : S) → (p.write_all b s).0 ≡ ok tt
  pub write_output : (b : Bytes) (s : S) → output (p.write_all b s).1 ≡ output s ++ b
  pub write_input : (b : Bytes) (s : S) → input (p.write_all b s).1 ≡ input s

concat-snoc : (bs : List Bytes) (b : Bytes) → concat (bs ++ (b ∷ [])) ≡ concat bs ++ b
concat-snoc [] b = append-nil b
concat-snoc (x ∷ xs) b = rw (concat-snoc xs b) (sym (append_assoc x (concat xs) b))

module _ {S : Type 0} (input output : S → Bytes) ⦃n : NdrCrate⦄ ⦃p : NamedPipe S⦄ where
  -- The pipe holds the bytes of the PDUs that the queue holds, packets that fit the wire, and has
  -- been given the bytes of those that were sent.
  pub record Carries (q : Queue) (s : S) : Type 0 where
    pub packets : List PduPacket
    pub fit : All IsWirePacket packets
    pub queued : q.incoming ≡ wires packets
    pub to_read : input s ≡ stream packets []
    pub written : output s ≡ concat q.sent

  module _ (reliable : IsByteStream p input output) where
    read_front :
        (front back : Bytes) (k : ℕ) (s : S)
        → length front ≡ k
        → input s ≡ front ++ back
        → ((p.read_exact k s).0 ≡ ok front)
          × (input (p.read_exact k s).1 ≡ back)
          × (output (p.read_exact k s).1 ≡ output s)
    read_front front back k s l e =
        let fits : k ≤ length (input s) = rw e (omega (arith, length-append front back)) in
        (
          reliable.read_bytes k s fits ∙ rw (e, take_left k front back l) refl,
          reliable.read_rest k s fits ∙ rw (e, drop_left k front back l) refl,
          reliable.read_output k s,
        )

    recv_front :
        (h : PduHeader) (body rest : Bytes) (s : S)
        → IsWireHeader h
        → h.frag_length ≡ 16 + length body
        → input s ≡ encode_header h ++ (body ++ rest)
        → (t : S) × (pipe_recv_pdu s ≡ (ok (encode_header h ++ body), t))
          × (input t ≡ rest)
          × (output t ≡ output s)
    unfolding pipe_recv_pdu
    recv_front h body rest s w len e =
        let a = read_front (encode_header h) (body ++ rest) 16 s (length-encode_header h) e in
        let s' = (p.read_exact 16 s).1 in
        let b = read_front body rest (h.frag_length - 16) s' (omega (arith, len)) a.1 in
        let known = rw append-nil at (decode_header-encode_header h [] w) in
        let long : ltb h.frag_length 16 ≡ false = ground (arith, len) in
        (
          (p.read_exact (h.frag_length - 16) s').1,
          ground (arith, a.0, known, long, b.0),
          b.1,
          b.2 ∙ a.2,
        )

    recv_packet :
        (packet : PduPacket) (rest : Bytes) (s : S)
        → IsWirePacket packet
        → input s ≡ wire packet ++ rest
        → (t : S) × (pipe_recv_pdu s ≡ (ok (wire packet), t))
          × (input t ≡ rest)
          × (output t ≡ output s)
    recv_packet packet rest s w e =
        let tail = packet.body ++ (trailer_bytes packet.security_trailer ++ packet.auth_value) in
        recv_front (stamp packet) tail rest s (stamp-IsWireHeader packet w.head)
          (stamp_frag_length packet w.fits)
          (e ∙ append_assoc (encode_header (stamp packet)) tail rest)

    recv_none :
        (s : S)
        → input s ≡ []
        → (m : String) × (t : S) × (pipe_recv_pdu s ≡ (err (Error.transport m), t))
          × (input t ≡ [])
          × (output t ≡ output s)
    unfolding pipe_recv_pdu
    recv_none s e =
        let (m, fails) = reliable.read_fails 16 s (rw e (omega arith)) in
        (
          m,
          (p.read_exact 16 s).1,
          ground (arith, fails),
          reliable.read_nothing 16 s e,
          reliable.read_output 16 s,
        )

    sends-Agree :
        (b : Bytes) (q : Queue) (s : S)
        → Carries q s
        → Agree Same Carries (queue_transport.send_pdu b q) (pipe_send_pdu b s)
    unfolding pipe_send_pdu
    sends-Agree b q s w =
        let carried : Carries (record q { sent = q.sent ++ (b ∷ []) }) (p.write_all b s).1 =
          record {
            packets = w.packets;
            fit = w.fit;
            queued = w.queued;
            to_read = reliable.write_input b s ∙ w.to_read;
            written = reliable.write_output b s ∙ rw (w.written, concat-snoc q.sent b) refl;
          } in
        subst
          (λ (y : Result (Unit {0}) × S).
            Agree Same Carries (ok tt, record q { sent = q.sent ++ (b ∷ []) }) y)
          (ap (λ (r : Result (Unit {0})). (r, (p.write_all b s).1))
            (sym (reliable.write_returns b s)))
          (returned refl carried)

    receives-packets :
        (ps : List PduPacket) (sent : List Bytes) (s : S)
        → All IsWirePacket ps
        → input s ≡ stream ps []
        → output s ≡ concat sent
        → Agree Same Carries
            (queue_transport.recv_pdu (record { incoming = wires ps; sent = sent }))
            (pipe_recv_pdu s)
    receives-packets [] sent s fit e o =
        let (m, t, failing, left, same_out) = recv_none s e in
        rw failing (
          failed transports (record {
            packets = [];
            fit = tt;
            queued = refl;
            to_read = left;
            written = same_out ∙ o;
          }))
    receives-packets (x ∷ xs) sent s fit e o =
        let (t, got, left, same_out) = recv_packet x (stream xs []) s fit.0 e in
        rw got (
          returned refl (record {
            packets = xs;
            fit = fit.1;
            queued = refl;
            to_read = left;
            written = same_out ∙ o;
          }))

    -- The transport over a reliable pipe simulates the queue of PDUs: what is sent comes to the pipe
    -- as the same bytes, and each PDU of the queue is received from the pipe with its own bytes and
    -- in its turn. At the end of the queue both fail with an error of the transport.
    pub pipe_transport-Simulates : Simulates Carries queue_transport pipe_transport
    pipe_transport-Simulates = record {
      sends = sends-Agree;
      receives = λ q s w.
          subst
            (λ (incoming : List Bytes).
              Agree Same Carries
                (queue_transport.recv_pdu (record { incoming = incoming; sent = q.sent }))
                (pipe_recv_pdu s))
            (sym w.queued) (receives-packets w.packets q.sent s w.fit w.to_read w.written);
    }
