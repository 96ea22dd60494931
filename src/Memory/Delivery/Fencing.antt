-- ===== src/Memory/Delivery/Fencing.antt =====
-- The lease token as a fence (execution/memory.go): after a new delivery, the calls of the worker
-- that held the execution before are refused.
use ody.Base.{
  lookup, String, ◌≡◌, List, some, ◌≢◌, ℤ, arith, ap, Member, ◌∙◌, All-mem, sym, nat_eq, refl,
}
use ody.Memory.{MemoryStore, owned}
use ody.Memory.Claim.{claim, deliver}
use ody.Memory.Lease.{heartbeat, succeed, fail, retry_execution}
use ody.Memory.Valid.{IsValid, Minted}
use ody.Memory.Delivery.Claimed.{IsClaimed, claim_sound}
use ody.Execution.{Uuid, Duration, TaskKey, Execution, err, lease_lost}

owned-stale :
    (t : MemoryStore) (i : Execution) (old : Uuid)
    → lookup i.id t.executions ≡ some i
    → i.lease_token ≢ old
    → owned t i.id old ≡ err lease_lost
unfolding owned
owned-stale t i old stored ne = rw stored (ground (arith, ne))

claimed-ne :
    (owner : String) (keys : List TaskKey) (lease : Duration) (s t : MemoryStore) (i : Execution)
    (old : Uuid)
    → IsValid s
    → IsClaimed owner keys lease s t i
    → Minted s old
    → i.lease_token ≢ old
unfolding deliver
claimed-ne owner keys lease s t i old v c m p =
    let (k, since, fresh) = c.fresh in
    let (j, earlier, minted) = m in
    let token_of : i.lease_token ≡ c.token = ap (λ (x : Execution). x.lease_token) c.delivered in
    let same : k ≡ j = v.faithful.mint_injective k j (fresh ∙ sym token_of ∙ p ∙ sym minted) in
    omega (arith, same, since, earlier)

-- Once a call of Claim on a well-formed store has delivered an execution, a token that was issued before that call is
-- refused by Heartbeat, Succeed, Retry and Fail, with `ErrLeaseLost` and no effect.
pub claim_fences :
    (owner : String) (keys : List TaskKey) (limit : ℤ) (lease term delay : Duration)
    (output text : String) (s : MemoryStore) (i : Execution) (old : Uuid)
    → IsValid s
    → Member i (claim owner keys limit lease s).0
    → Minted s old
    → let t = (claim owner keys limit lease s).1 in
      (heartbeat i.id old term t ≡ (err lease_lost, t))
      × (succeed i.id old output t ≡ (err lease_lost, t))
      × (retry_execution i.id old text delay t ≡ (err lease_lost, t))
      × (fail i.id old text t ≡ (err lease_lost, t))
unfolding heartbeat succeed retry_execution fail
claim_fences owner keys limit lease term delay output text s i old v m minted =
    rw stale (refl, refl, refl, refl)
  where
    t : MemoryStore
    t = (claim owner keys limit lease s).1

    claimed : IsClaimed owner keys lease s t i
    claimed = All-mem (IsClaimed owner keys lease s t) (claim_sound owner keys limit lease s v).0 m

    stale : owned t i.id old ≡ err lease_lost
    stale =
        owned-stale t i old claimed.stored_after
          (claimed-ne owner keys lease s t i old v claimed minted)
