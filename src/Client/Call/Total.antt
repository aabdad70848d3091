-- ===== src/Client/Call/Total.antt =====
-- A call ends where the transport delivers finitely many PDUs, whatever they hold, and it changes
-- nothing of the client but the transport and the call id.
use msrpce_dcerpc.Base.{ℕ, ◌<◌, ◌≡◌, arith, Bytes, Returns}
use msrpce_dcerpc.Crates.{NdrCrate, UuidCrate}
use msrpce_dcerpc.Auth.{AuthProvider}
use msrpce_dcerpc.Transport.{RpcTransport}
use msrpce_dcerpc.Transport.Ends.{Ends, >>=-Ends, Ends-Returns, Ends-state}
use msrpce_dcerpc.Transport.Finite.{IsFinite}
use msrpce_dcerpc.Client.Packets.{RpcClient, next_call_id, following_call_id}
use msrpce_dcerpc.Client.Send.{send_request_fragments}
use msrpce_dcerpc.Client.Receive.{recv_response_fragments}
use msrpce_dcerpc.Client.Send.Total.{Within, Within-refl, send_request_fragments-Ends}
use msrpce_dcerpc.Client.Receive.Total.{recv_response_fragments-Ends}
use msrpce_dcerpc.Client.Call.{call_raw}

-- The client `k` after a call of the client `c`.
pub record AfterCall {T P : Type 0} (c k : RpcClient T P) : Type 0 where
  pub next_id : k.call_id ≡ following_call_id c.call_id
  pub same_context : k.context_id ≡ c.context_id
  pub same_limit : k.max_xmit_frag ≡ c.max_xmit_frag
  pub same_provider : k.auth_provider ≡ c.auth_provider

module _ {T P : Type 0} (Uuid : Type 0) (remaining : T → ℕ) ⦃n : NdrCrate⦄ ⦃u : UuidCrate Uuid⦄
    ⦃a : AuthProvider P⦄ ⦃tr : RpcTransport T⦄ (fin : IsFinite tr remaining) where
  pub call_raw-Ends :
      (rounds opnum : ℕ) (stub : Bytes) (c : RpcClient T P)
      → remaining c.transport < rounds
      → Ends (Within remaining (next_call_id c).1) (call_raw Uuid rounds opnum stub c)
  unfolding call_raw next_call_id
  call_raw-Ends rounds opnum stub c enough =
      let c' : RpcClient T P = (next_call_id c).1 in
      >>=-Ends (Within remaining c') (Within remaining c')
        (send_request_fragments Uuid c.call_id opnum stub)
        (λ _. recv_response_fragments rounds c.call_id) c'
        (send_request_fragments-Ends Uuid remaining fin c' c.call_id opnum stub c'
          (Within-refl remaining c'))
        (λ x e v.
          recv_response_fragments-Ends remaining fin c' rounds c.call_id
            (send_request_fragments Uuid c.call_id opnum stub c').1 (omega (arith, v.left)) v)
        (λ v. v)

  -- A call returns, with a stub or with an error, whatever the operation, the stub, the provider,
  -- the size of a fragment and the bytes that the transport delivers, and of the client it changes
  -- only the transport and the call id, which is the following one: where the transport never
  -- panics, delivers finitely many PDUs, and the loop is given more rounds than these.
  pub call_raw-AfterCall :
      (rounds opnum : ℕ) (stub : Bytes) (c : RpcClient T P)
      → remaining c.transport < rounds
      → Returns (call_raw Uuid rounds opnum stub c).0
        × AfterCall c (call_raw Uuid rounds opnum stub c).1
  unfolding next_call_id
  call_raw-AfterCall rounds opnum stub c enough =
      let ends = call_raw-Ends rounds opnum stub c enough in
      let v = Ends-state (Within remaining (next_call_id c).1) ends in
      (
        Ends-Returns (Within remaining (next_call_id c).1) ends,
        record {
          next_id = v.same_call;
          same_context = v.same_context;
          same_limit = v.same_limit;
          same_provider = v.same_provider;
        },
      )
