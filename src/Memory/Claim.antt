-- ===== src/Memory/Claim.antt =====
-- execution/memory.go: Claim.
use ody.Base.{
  ℕ, String, suc, Bool, ◌&&◌, ◌||◌, not, none, some, List, [], ◌∷◌, ◌==◌, nat_eq, ltb, leb,
  if◌then◌else◌, values, take, select, contains, sort, is_nonpos, to_nat, add_duration, ℤ,
}
use ody.Execution.{
  Uuid, Time, Duration, TaskKey, task_key_eq, pending, retry, running, status_eq, Execution,
  started,
}
use ody.Memory.{MemoryStore, now, after_now, new_uuid, after_uuid, commit}

-- Pending, due for a retry, or running under a lease that has run out.
unfoldable pub is_claimable : Time → Execution → Bool
is_claimable at item =
    item.status == pending
    || item.status == retry
    || (item.status == running && not (ltb at item.lease_until))

unfoldable pub is_candidate : List TaskKey → Time → Execution → Bool
unfolding is_claimable
is_candidate keys at item =
    contains keys (record { name = item.task_name; version = item.task_version })
    && not (ltb at item.available_at)
    && is_claimable at item
    && not (leb item.max_attempts item.attempt)

-- The order of the queue: the earliest available, then the earliest created.
unfoldable pub due_before : Execution → Execution → Bool
due_before a b =
    if a.available_at == b.available_at
    then ltb a.created_at b.created_at
    else ltb a.available_at b.available_at

unfoldable pub limited : ℤ → ℕ
limited limit = if is_nonpos limit then 1 else to_nat limit

unfoldable pub candidates : List TaskKey → ℤ → MemoryStore → List Execution
unfolding is_candidate due_before limited
candidates keys limit s =
    take (limited limit)
      (sort due_before (select (is_candidate keys (now s)) (values s.executions)))

-- The candidate as it is delivered.
unfoldable pub deliver : String → Uuid → Time → Duration → Execution → Execution
deliver owner token at lease item = record item {
  status = running;
  attempt = suc item.attempt;
  lease_owner = owner;
  lease_token = token;
  lease_until = add_duration at lease;
  started_at = elim item.started_at [ none ↦ some at | some t ↦ some t ];
}

unfoldable pub claim_each :
    String → Time → Duration → List Execution → MemoryStore → List Execution × MemoryStore
unfolding deliver commit
claim_each owner at lease [] s = ([], s)
claim_each owner at lease (candidate ∷ rest) s =
    let item = deliver owner (new_uuid s) at lease candidate in
    let (claimed, s') =
      claim_each owner at lease rest (commit (after_uuid s) candidate.id item started "") in
    (item ∷ claimed, s')

unfoldable pub claim :
    String → List TaskKey → ℤ → Duration → MemoryStore → List Execution × MemoryStore
unfolding candidates claim_each
claim owner keys limit lease s =
    claim_each owner (now s) lease (candidates keys limit s) (after_now s)
