-- ===== src/Client/Simulation.antt =====
-- The client does the same over any two transports of which one simulates the other.
pub mod Send
pub mod Call
pub mod Bind
use msrpce_dcerpc.Base.{◌≡◌}
use msrpce_dcerpc.Client.Packets.{RpcClient}

-- Clients that differ in their transports alone, whose states `R` relates.
pub record Paired {T T' P : Type 0} (R : T → T' → Type 0) (c : RpcClient T P) (k : RpcClient T' P)
    : Type 0 where
  pub related : R c.transport k.transport
  pub same_context : k.context_id ≡ c.context_id
  pub same_call : k.call_id ≡ c.call_id
  pub same_limit : k.max_xmit_frag ≡ c.max_xmit_frag
  pub same_provider : k.auth_provider ≡ c.auth_provider

module _ {T T' P : Type 0} (R : T → T' → Type 0) where
  pub Paired-moved :
      (c : RpcClient T P) (k : RpcClient T' P)
      → Paired R c k
      → (s : T) (t : T') → R s t
      → Paired R (record c { transport = s }) (record k { transport = t })
  Paired-moved c k w s t r = record {
    related = r;
    same_context = w.same_context;
    same_call = w.same_call;
    same_limit = w.same_limit;
    same_provider = w.same_provider;
  }
