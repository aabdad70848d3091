-- ===== src/Client/Receive/Queue.antt =====
-- The transport of examples/in_memory_bind_call.rs, which delivers a given list of PDUs; the theorems
-- on what the client receives use it.
use msrpce_dcerpc.Base.{
  ℕ, ◌≤◌, ◌<◌, Bytes, List, [], ◌∷◌, ◌++◌, length, ok, err, ◌≡◌, arith, Returns,
}
use msrpce_dcerpc.Error.{Result}
use msrpce_dcerpc.Error
use msrpce_dcerpc.Transport.{RpcTransport}
use msrpce_dcerpc.Transport.Finite.{IsFinite}

-- `struct MemoryTransport`: the PDUs still to be received, and those that were sent.
pub record Queue : Type 0 where
  pub incoming : List Bytes
  pub sent : List Bytes

abbrev queue_send : Bytes → Queue → Result (Unit {0}) × Queue
queue_send bytes q = (ok tt, record q { sent = q.sent ++ (bytes ∷ []) })

abbrev pop : List Bytes → List Bytes → Result Bytes × Queue
pop [] sent =
    (err (Error.transport "no queued PDU available"), record { incoming = []; sent = sent })
pop (b ∷ bs) sent = (ok b, record { incoming = bs; sent = sent })

abbrev queue_recv : Queue → Result Bytes × Queue
queue_recv q = pop q.incoming q.sent

instance abbrev pub queue_transport : RpcTransport Queue
queue_transport = record { send_pdu = queue_send; recv_pdu = queue_recv }

pop_falls :
    (bs sent : List Bytes) {b : Bytes}
    → (pop bs sent).0 ≡ ok b
    → length (pop bs sent).1.incoming < length bs
pop_falls [] sent e = cc
pop_falls (x ∷ xs) sent e = omega arith

pop-Returns : (bs sent : List Bytes) → Returns (pop bs sent).0
pop-Returns [] sent = tt
pop-Returns (x ∷ xs) sent = tt

pop_remaining : (bs sent : List Bytes) → length (pop bs sent).1.incoming ≤ length bs
pop_remaining [] sent = omega arith
pop_remaining (x ∷ xs) sent = omega arith

-- The PDUs still to be received.
abbrev pub queued : Queue → ℕ
queued q = length q.incoming

pub queue_transport-IsFinite : IsFinite queue_transport queued
queue_transport-IsFinite = record {
  send_returns = λ b q. tt;
  send_remaining = λ b q. omega arith;
  recv_returns = λ q. pop-Returns q.incoming q.sent;
  recv_remaining = λ q. pop_remaining q.incoming q.sent;
  recv_falls = λ q e. pop_falls q.incoming q.sent e;
}
