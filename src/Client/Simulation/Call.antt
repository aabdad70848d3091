-- ===== src/Client/Simulation/Call.antt =====
-- A call over a transport that simulates another.
use msrpce_dcerpc.Base.{ℕ, zero, suc, Bytes, ok, refl, sym, ap, [], Bool, false}
use mathlib.Core.Path.{subst}
use msrpce_dcerpc.Crates.{NdrCrate, UuidCrate}
use msrpce_dcerpc.Auth.{AuthProvider}
use msrpce_dcerpc.Transport.{RpcTransport, Action, lift, ◌>>=◌}
use msrpce_dcerpc.Transport.Simulation.{
  Agree, returned, diverged, Same, Simulates, >>=-Agree, lift-Agree, Agree-map,
}
use msrpce_dcerpc.Client.Packets.{
  RpcClient, verify_response_packet, next_call_id, following_call_id,
}
use msrpce_dcerpc.Client.Send.{send_request_fragments}
use msrpce_dcerpc.Client.Response.{Progress, done, more, take_pdu}
use msrpce_dcerpc.Client.Receive.{recv_bytes, recv_round, recv_loop, recv_response_fragments}
use msrpce_dcerpc.Client.Call.{call_raw}
use msrpce_dcerpc.Client.Simulation.{Paired, Paired-moved}
use msrpce_dcerpc.Client.Simulation.Send.{send_request_fragments-Agree}

-- What the receiving loop does after a round.
abbrev go_on :
    {T P : Type 0} ⦃n : NdrCrate⦄ ⦃a : AuthProvider P⦄ ⦃tr : RpcTransport T⦄
    → ℕ
    → ℕ
    → Progress
    → Action (RpcClient T P) Bytes
go_on rounds call_id progress = elim progress [
  | done stub ↦ lift (ok stub)
  | more stub saw ↦ recv_loop rounds call_id stub saw
]

module _ {T T' P : Type 0} (Uuid : Type 0) (R : T → T' → Type 0) ⦃n : NdrCrate⦄ ⦃u : UuidCrate Uuid⦄
    ⦃a : AuthProvider P⦄ ⦃tr : RpcTransport T⦄ ⦃tr' : RpcTransport T'⦄
    (sim : Simulates R tr tr') where
  abbrev Pair : RpcClient T P → RpcClient T' P → Type 0
  Pair c k = Paired R c k

  recv_bytes-Agree :
      (c : RpcClient T P) (k : RpcClient T' P)
      → Pair c k
      → Agree Same Pair (recv_bytes c) (recv_bytes k)
  unfolding recv_bytes
  recv_bytes-Agree c k w =
      Agree-map Same R Pair (λ (s : T). record c { transport = s })
        (λ (t : T'). record k { transport = t }) (Paired-moved R c k w)
        (sim.receives c.transport k.transport w.related)

  recv_round-Agree :
      (call_id : ℕ) (stub : Bytes) (saw : Bool) (c : RpcClient T P) (k : RpcClient T' P)
      → Pair c k
      → Agree Same Pair (recv_round call_id stub saw c) (recv_round call_id stub saw k)
  unfolding recv_round
  recv_round-Agree call_id stub saw c k w =
      >>=-Agree Pair Same recv_bytes recv_bytes (λ bytes. lift (take_pdu c call_id bytes stub saw))
        (λ bytes. lift (take_pdu k call_id bytes stub saw)) c k (recv_bytes-Agree c k w)
        (λ bytes c' k' v.
          lift-Agree Pair (take_pdu c call_id bytes stub saw) (take_pdu k call_id bytes stub saw) c'
            k' (unfold take_pdu verify_response_packet in rw w.same_provider refl) v)

  recv_loop-Agree :
      (rounds call_id : ℕ) (stub : Bytes) (saw : Bool) (c : RpcClient T P) (k : RpcClient T' P)
      → Pair c k
      → Agree Same Pair (recv_loop rounds call_id stub saw c) (recv_loop rounds call_id stub saw k)
  unfolding recv_loop
  recv_loop-Agree zero call_id stub saw c k w = diverged w
  recv_loop-Agree (suc rounds) call_id stub saw c k w =
      >>=-Agree Pair Same (recv_round call_id stub saw) (recv_round call_id stub saw)
        (go_on rounds call_id) (go_on rounds call_id) c k (recv_round-Agree call_id stub saw c k w)
        (λ progress c' k' v.
          elim progress
            as (λ p.
              Agree Same Pair (go_on {P = P} rounds call_id p c')
                (go_on {P = P} rounds call_id p k')) [
                  | done s ↦ returned refl v
                  | more s saw' ↦ recv_loop-Agree rounds call_id s saw' c' k' v
                ])

  -- A call does the same over a transport that simulates another: `call_raw` returns the same stub,
  -- or both fail with the same error, but for the text of a transport's error, and the clients go
  -- on to differ in their transports alone, which are related.
  pub call_raw-Agree :
      (rounds opnum : ℕ) (stub : Bytes) (c : RpcClient T P) (k : RpcClient T' P)
      → Pair c k
      → Agree Same Pair (call_raw Uuid rounds opnum stub c) (call_raw Uuid rounds opnum stub k)
  unfolding call_raw next_call_id recv_response_fragments
  call_raw-Agree rounds opnum stub c k w =
      let c' : RpcClient T P = record c { call_id = following_call_id c.call_id } in
      let k' : RpcClient T' P = record k { call_id = following_call_id k.call_id } in
      let w' : Pair c' k' = record {
        related = w.related;
        same_context = w.same_context;
        same_call = ap following_call_id w.same_call;
        same_limit = w.same_limit;
        same_provider = w.same_provider;
      } in
      subst
        (λ (i : ℕ).
          Agree Same Pair (call_raw Uuid rounds opnum stub c) (
            (send_request_fragments Uuid i opnum stub >>= λ _. recv_response_fragments rounds i)
              k'))
        (sym w.same_call)
        (>>=-Agree Pair Same (send_request_fragments Uuid c.call_id opnum stub)
          (send_request_fragments Uuid c.call_id opnum stub)
          (λ _. recv_response_fragments rounds c.call_id)
          (λ _. recv_response_fragments rounds c.call_id) c' k'
          (send_request_fragments-Agree Uuid R sim c.call_id opnum stub c' k' w')
          (λ x d j v. recv_loop-Agree rounds c.call_id [] false d j v))
