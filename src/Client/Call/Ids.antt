-- ===== src/Client/Call/Ids.antt =====
-- The call ids that `next_call_id` hands out.
use msrpce_dcerpc.Base.{ℕ, zero, suc, ◌+◌, ◌%◌, ◌<◌, ◌≡◌, ◌≢◌, arith, IsU32}
use msrpce_dcerpc.Client.Packets.{RpcClient, following_call_id, next_call_id}

-- The client after a number of calls.
abbrev pub after_calls : {T P : Type 0} → ℕ → RpcClient T P → RpcClient T P
after_calls zero c = c
after_calls (suc n) c = (next_call_id (after_calls n c)).1

-- The id of call number `n`, from 0 on.
abbrev pub nth_call_id : {T P : Type 0} → ℕ → RpcClient T P → ℕ
nth_call_id n c = (next_call_id (after_calls n c)).0

module _ {T P : Type 0} (c : RpcClient T P) where
  -- From 1 on the ids count up to the greatest of 32 bits, and then they begin at 1 again.
  pub nth_call_id_lem : (n : ℕ) → c.call_id ≡ 1 → nth_call_id n c ≡ n % 4294967295 + 1
  unfolding next_call_id following_call_id
  nth_call_id_lem zero h = omega arith
  nth_call_id_lem (suc n) h = omega (arith, nth_call_id_lem n h)

  -- A client whose id is 1 gives call number `n` an id of 32 bits that is not 0, and two calls the
  -- same id only when they are 4294967295 calls apart or more.
  pub nth_call_id_distinct :
      (m n : ℕ)
      → c.call_id ≡ 1
      → m < n
      → n < m + 4294967295
      → (nth_call_id m c ≢ nth_call_id n c) × (0 < nth_call_id n c) × IsU32 (nth_call_id n c)
  nth_call_id_distinct m n h lt near =
      rw (nth_call_id_lem m h, nth_call_id_lem n h) (omega arith, omega arith, omega arith)
