-- ===== src/Redis/Candidates.antt =====
-- Claim, ReapExpired and RestartExecution of the Redis store (execution/redis/store.go) on one
-- execution, against those of MemoryStore (execution/memory.go).
use ody.Execution.{Execution, Uuid, TaskKey, Time, Duration, running, status_eq}
use ody.Base.{
  List, ◌≡◌, String, arith, true, ◌⊎◌, false, Bool-cases, inl, ◌==◌, sym, ◌∙◌, inr, ltb, refl,
}
use ody.Redis.{Codec, Plan, Command, skip, send}
use ody.Redis.Operations
use ody.Redis.Refines.{Saves, saving-sends}
use ody.Memory.Claim
use ody.Memory.Lease

pub can_claim-is_candidate :
    (keys : List TaskKey) (at : Time) (item : Execution)
    → Operations.can_claim keys at item ≡ Claim.is_candidate keys at item
unfolding Operations.can_claim Claim.is_candidate Claim.is_claimable
can_claim-is_candidate keys at item = ground arith

-- Whether a transaction was planned, and of which record.
abbrev pub Writes : Plan Execution → Execution → Type 0
Writes plan item = (commands : List Command) × (plan ≡ send item commands)

module _ (codec : Codec) where
  -- The Redis store claims a candidate exactly where MemoryStore counts it as one, and delivers the same
  -- record, if that record and its event can be encoded; any other candidate is left alone without an
  -- error.
  pub claim_candidate_same :
      (event_id : Uuid) (owner : String) (token : Uuid) (accepted : List TaskKey) (lease : Duration)
      (at : Time) (item : Execution)
      → Saves codec event_id at (Operations.claiming owner token lease item at)
      → ((Claim.is_candidate accepted at item ≡ true)
          × Writes
              (Operations.claim_candidate codec event_id owner token accepted lease at item)
              (Claim.deliver owner token at lease item))
        ⊎ ((Claim.is_candidate accepted at item ≡ false)
            × (Operations.claim_candidate codec event_id owner token accepted lease at item ≡ skip))
  unfolding Operations.claim_candidate Operations.claiming Claim.deliver
  claim_candidate_same event_id owner token accepted lease at item t =
      let same = can_claim-is_candidate accepted at item in
      elim (Bool-cases (Operations.can_claim accepted at item)) [
        | inl y ↦ inl (
          sym same ∙ y,
          rw (y, Operations.claim_candidate)
              (saving-sends codec event_id item.status at
                (Operations.claiming owner token lease item at) t),
        )
        | inr n ↦ inr (sym same ∙ n, rw (n, Operations.claim_candidate) refl)
      ]

  -- The Redis store fails an execution whose lease has run out exactly where MemoryStore does, with the
  -- same record, if that record and its event can be encoded; of any other it at most removes the
  -- deadline.
  pub reap_candidate_same :
      (event_id : Uuid) (at : Time) (item : Execution)
      → Saves codec event_id at (Operations.expiring item at)
      → ((Lease.is_exhausted at item ≡ true)
          × Writes (Operations.reap_candidate codec event_id at item) (Lease.reap at item))
        ⊎ ((Lease.is_exhausted at item ≡ false)
            × ((Operations.reap_candidate codec event_id at item ≡ skip)
                ⊎ (Operations.reap_candidate codec event_id at item
                    ≡ Operations.remove_lease_index codec item)))
  unfolding Operations.reap_candidate Operations.expiring Lease.is_exhausted Lease.reap
  reap_candidate_same event_id at item t = elim (Bool-cases (item.status == running)) [
    | inr n ↦ inr (rw n refl, inr (rw (n, Operations.reap_candidate) refl))
    | inl r ↦ elim (Bool-cases (ltb at item.lease_until)) [
      | inl y ↦ inr (rw (r, y) refl, inl (rw (r, y, Operations.reap_candidate) refl))
      | inr n ↦ elim (Bool-cases (ltb item.attempt item.max_attempts)) [
        | inl y ↦ inr (rw (r, n, y) refl, inr (rw (r, n, y, Operations.reap_candidate) refl))
        | inr z ↦ inl (
          rw (r, n, z) refl,
          rw (r, n, z, Operations.reap_candidate)
              (saving-sends codec event_id item.status at (Operations.expiring item at) t),
        )
      ]
    ]
  ]
