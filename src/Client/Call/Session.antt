-- ===== src/Client/Call/Session.antt =====
-- Calls that are made one after the other on a client, whatever the server answers.
use msrpce_dcerpc.Base.{
  ℕ, zero, suc, ◌<◌, ◌≡◌, refl, ap, ◌∙◌, arith, Bytes, List, [], ◌∷◌, length, Returns,
}
use msrpce_dcerpc.Crates.{NdrCrate, UuidCrate}
use msrpce_dcerpc.Auth.{AuthProvider}
use msrpce_dcerpc.Transport.{RpcTransport}
use msrpce_dcerpc.Transport.Ends.{Ends-state, Ends-Returns}
use msrpce_dcerpc.Transport.Finite.{IsFinite}
use msrpce_dcerpc.Client.Packets.{RpcClient, next_call_id, following_call_id}
use msrpce_dcerpc.Client.Send.Total.{Within}
use msrpce_dcerpc.Client.Call.{call_raw}
use msrpce_dcerpc.Client.Call.Ids.{after_calls}
use msrpce_dcerpc.Client.Call.Total.{call_raw-Ends}

-- A request: the operation's number and the stub.
abbrev pub CallRequest : Type 0
CallRequest = ℕ × Bytes

-- The ids that `n` calls from the id `i` on leave.
after_calls-following_call_id :
    {T P : Type 0} (n : ℕ) (c k : RpcClient T P)
    → k.call_id ≡ following_call_id c.call_id
    → (after_calls n k).call_id ≡ (after_calls (suc n) c).call_id
unfolding next_call_id
after_calls-following_call_id zero c k e = e
after_calls-following_call_id (suc n) c k e =
    ap following_call_id (after_calls-following_call_id n c k e)

-- What a session of `m` calls leaves of the client that it began with.
pub record AfterCalls {T P : Type 0} (m : ℕ) (c k : RpcClient T P) : Type 0 where
  pub ids : k.call_id ≡ (after_calls m c).call_id
  pub same_context : k.context_id ≡ c.context_id
  pub same_limit : k.max_xmit_frag ≡ c.max_xmit_frag
  pub same_provider : k.auth_provider ≡ c.auth_provider

module _ {T P : Type 0} (Uuid : Type 0) ⦃n : NdrCrate⦄ ⦃u : UuidCrate Uuid⦄ ⦃a : AuthProvider P⦄
    ⦃tr : RpcTransport T⦄ where
  -- The client after calls, each made whatever became of the ones before.
  abbrev pub make_calls : ℕ → List CallRequest → RpcClient T P → RpcClient T P
  make_calls rounds [] c = c
  make_calls rounds ((opnum, stub) ∷ calls) c =
      make_calls rounds calls (call_raw Uuid rounds opnum stub c).1

  -- Every call of the sequence returns.
  abbrev pub AllReturn : ℕ → List CallRequest → RpcClient T P → Type 0
  AllReturn rounds [] c = Unit {0}
  AllReturn rounds ((opnum, stub) ∷ calls) c =
      Returns (call_raw Uuid rounds opnum stub c).0
      × AllReturn rounds calls (call_raw Uuid rounds opnum stub c).1

  -- A sequence of calls on a client, each made whatever became of the ones before: every call
  -- returns, and in the end the client has the same context, greatest fragment and provider, and
  -- the call id that as many calls of `next_call_id` leave. The transport never panics and delivers
  -- finitely many PDUs, and the loops are given more rounds than these.
  pub make_calls-AfterCalls :
      (remaining : T → ℕ) (fin : IsFinite tr remaining) (rounds : ℕ) (calls : List CallRequest)
      (c : RpcClient T P)
      → remaining c.transport < rounds
      → AllReturn rounds calls c × AfterCalls (length calls) c (make_calls rounds calls c)
  unfolding next_call_id
  make_calls-AfterCalls remaining fin rounds [] c enough =
      (tt, record { ids = refl; same_context = refl; same_limit = refl; same_provider = refl })
  make_calls-AfterCalls remaining fin rounds ((opnum, stub) ∷ calls) c enough =
      let ends = call_raw-Ends Uuid remaining fin rounds opnum stub c enough in
      let v = Ends-state (Within remaining (next_call_id c).1) ends in
      let k = (call_raw Uuid rounds opnum stub c).1 in
      let rest = make_calls-AfterCalls remaining fin rounds calls k (omega (arith, v.left)) in
      (
        (Ends-Returns (Within remaining (next_call_id c).1) ends, rest.0),
        record {
          ids = rest.1.ids ∙ after_calls-following_call_id (length calls) c k v.same_call;
          same_context = rest.1.same_context ∙ v.same_context;
          same_limit = rest.1.same_limit ∙ v.same_limit;
          same_provider = rest.1.same_provider ∙ v.same_provider;
        },
      )
