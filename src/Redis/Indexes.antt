-- ===== src/Redis/Indexes.antt =====
-- The sorted sets of the Redis store (execution/redis/store.go): in which of them an execution stands,
-- with which score, before and after a transaction.
use ody.Redis.Encoding.{score}
use ody.Base.{
  ℕ, Bool, String, ◌==◌, Option, List, ◌&&◌, ℤ, if◌then◌else◌, some, ◌∷◌, ◌++◌, nat_eq, none, ◌≡◌,
  string_eq, [], refl, ◌≢◌, ◌⊎◌,
}
use ody.Execution.{is_active, Execution, Time, running, Status, status_eq}
use ody.Redis.{
  of_execution, of_events, of_executions, of_leases, of_execution_counts, of_pipeline_counts,
  of_queue, of_task, of_status, of_idempotency, of_node, of_run_executions, of_pipeline, of_runs,
  of_pipeline_idempotency, of_run_status, Codec, Key, Command, Kind, zadd, zrem, status_key,
  queue_key, leases_key,
}

abbrev pub kind_index : Kind → ℕ
kind_index of_execution = 0
kind_index of_events = 1
kind_index of_executions = 2
kind_index of_leases = 3
kind_index of_execution_counts = 4
kind_index of_pipeline_counts = 5
kind_index of_queue = 6
kind_index of_task = 7
kind_index of_status = 8
kind_index of_idempotency = 9
kind_index of_node = 10
kind_index of_run_executions = 11
kind_index of_pipeline = 12
kind_index of_runs = 13
kind_index of_pipeline_idempotency = 14
kind_index of_run_status = 15

abbrev pub same_key : Key → Key → Bool
same_key a b = kind_index a.kind == kind_index b.kind && a.argument == b.argument

-- The score of a member of the set with the key, after a command: ZADD sets it and ZREM removes it.
abbrev pub scored : Key → String → Command → Option ℤ → Option ℤ
scored key member (zadd k n m) old = if same_key k key && m == member then some n else old
scored key member (zrem k m) old = if same_key k key && m == member then none else old
scored key member _ old = old

unfoldable pub score_after : Key → String → List Command → Option ℤ → Option ℤ
score_after key member [] old = old
score_after key member (command ∷ rest) old =
    score_after key member rest (scored key member command old)

pub score_after-append :
    (key : Key) (member : String) (xs ys : List Command) (old : Option ℤ)
    → score_after key member (xs ++ ys) old
      ≡ score_after key member ys (score_after key member xs old)
unfolding score_after
score_after-append key member [] ys old = refl
score_after-append key member (x ∷ xs) ys old =
    score_after-append key member xs ys (scored key member x old)

-- When an execution is due in its queue.
abbrev pub due_at : Execution → Time
due_at item = if item.status == running then item.lease_until else item.available_at

-- The sets that an execution stands in: that of its status and of no other, its queue if it is active,
-- and the deadlines only if it is running.
pub record IsIndexed (codec : Codec) (item : Execution) (scores : Key → Option ℤ) : Type 0 where
  pub in_status : scores (status_key codec item.status) ≡ some (score item.created_at)
  pub in_no_other :
      (status : Status) → status ≢ item.status → scores (status_key codec status) ≡ none
  pub queued :
      scores (queue_key codec item.task_name)
      ≡ (if is_active item.status then some (score (due_at item)) else none)
  pub leased :
      (scores (leases_key codec) ≡ none)
      ⊎ ((item.status ≡ running) × (scores (leases_key codec) ≡ some (score item.lease_until)))
