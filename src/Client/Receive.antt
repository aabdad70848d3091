-- ===== src/Client/Receive.antt =====
-- `recv_response_fragments` of src/client.rs.
pub mod Queue
pub mod Reassembly
pub mod Outcomes
pub mod Total
use msrpce_dcerpc.Base.{ℕ, zero, suc, Bytes, ok, diverge, Bool, false, []}
use msrpce_dcerpc.Crates.{NdrCrate}
use msrpce_dcerpc.Auth.{AuthProvider}
use msrpce_dcerpc.Transport.{RpcTransport, Action, lift, ◌>>=◌}
use msrpce_dcerpc.Client.Packets.{RpcClient}
use msrpce_dcerpc.Client.Response.{Progress, done, more, take_pdu}

module _ {T P : Type 0} ⦃n : NdrCrate⦄ ⦃a : AuthProvider P⦄ ⦃tr : RpcTransport T⦄ where
  -- `self.transport.recv_pdu()`
  unfoldable pub recv_bytes : Action (RpcClient T P) Bytes
  recv_bytes c = let (r, t) = tr.recv_pdu c.transport in (r, record c { transport = t })

  -- A round of the loop.
  unfoldable pub recv_round : ℕ → Bytes → Bool → Action (RpcClient T P) Progress
  unfolding recv_bytes
  recv_round expected_call_id response_stub saw_first c =
      (recv_bytes >>= λ bytes. lift (take_pdu c expected_call_id bytes response_stub saw_first)) c

  -- The loop, by the rounds that it is given: nothing bounds the fragments of a response.
  unfoldable pub recv_loop : ℕ → ℕ → Bytes → Bool → Action (RpcClient T P) Bytes
  recv_loop zero expected_call_id response_stub saw_first = lift diverge
  recv_loop (suc rounds) expected_call_id response_stub saw_first =
      recv_round expected_call_id response_stub saw_first >>= λ progress. elim progress [
        | done stub ↦ lift (ok stub)
        | more stub saw ↦ recv_loop rounds expected_call_id stub saw
      ]

  -- `RpcClient::recv_response_fragments`
  unfoldable pub recv_response_fragments : ℕ → ℕ → Action (RpcClient T P) Bytes
  unfolding recv_loop
  recv_response_fragments rounds expected_call_id = recv_loop rounds expected_call_id [] false
