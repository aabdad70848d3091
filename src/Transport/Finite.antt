-- ===== src/Transport/Finite.antt =====
-- Transports that deliver finitely many PDUs and then fail.
use msrpce_dcerpc.Base.{ℕ, ◌≤◌, ◌<◌, Bytes, ok, ◌≡◌, Returns}
use msrpce_dcerpc.Transport.{RpcTransport}

-- `remaining` bounds the PDUs that are still to come, whatever will be sent: it falls with every PDU
-- that is received and never grows; and no call panics. The client's theorems use it as what they
-- assume of a transport.
pub record IsFinite {T : Type 0} (tr : RpcTransport T) (remaining : T → ℕ) : Type 0 where
  pub send_returns : (b : Bytes) (t : T) → Returns (tr.send_pdu b t).0
  pub send_remaining : (b : Bytes) (t : T) → remaining (tr.send_pdu b t).1 ≤ remaining t
  pub recv_returns : (t : T) → Returns (tr.recv_pdu t).0
  pub recv_remaining : (t : T) → remaining (tr.recv_pdu t).1 ≤ remaining t
  pub recv_falls :
      (t : T) {b : Bytes} → (tr.recv_pdu t).0 ≡ ok b → remaining (tr.recv_pdu t).1 < remaining t
