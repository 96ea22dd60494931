-- ===== src/Memory/Valid/Reachable.antt =====
-- Every method of `MemoryStore` that writes, as one step, and the stores that are reached from a new one.
use ody.Base.{Option-cases, ℤ, ◌∷◌, lookup, inl, [], arith, inr, Bool-cases, ◌==◌, nat_eq}
use ody.Memory.{MemoryStore, Env, IsFaithful, new_memory_store, String, List, ℕ}
use ody.Memory.Runs.{create_pipeline_run, set_pipeline_run_status, known_run}
use ody.Memory.Create.{create_execution}
use ody.Memory.Claim.{claim}
use ody.Memory.Lease.{reap_expired, heartbeat, succeed, retry_execution, fail}
use ody.Memory.Control.{
  cancel_execution, restart_execution, restart_pipeline_subgraph, release_execution,
}
use ody.Memory.Purge.{purge}
use ody.Memory.Valid.{IsValid}
use ody.Memory.Valid.Update.{frame-IsValid}
use ody.Memory.Valid.Lease.{
  reap_expired-IsValid, heartbeat-IsValid, succeed-IsValid, fail-IsValid, retry_execution-IsValid,
}
use ody.Memory.Valid.Create.{create_execution-IsValid, new_memory_store-IsValid}
use ody.Memory.Valid.Claim.{claim-IsValid}
use ody.Memory.Valid.Control.{
  cancel_execution-IsValid, restart_execution-IsValid, restart_pipeline_subgraph-IsValid,
  release_execution-IsValid,
}
use ody.Memory.Valid.Purge.{purge-IsValid}
use ody.Execution.{
  Uuid, Time, Duration, TaskKey, RunStatus, CreateExecution, CreatePipelineRun, RestartSubgraph,
}

-- A call of a method that may write, with its arguments.
pub data Call : Type 0 where
  call_create : CreateExecution → Call
  call_claim : String → List TaskKey → ℤ → Duration → Call
  call_reap : Call
  call_heartbeat : Uuid → Uuid → Duration → Call
  call_succeed : Uuid → Uuid → String → Call
  call_retry : Uuid → Uuid → String → Duration → Call
  call_fail : Uuid → Uuid → String → Call
  call_cancel : Uuid → String → Call
  call_restart : Uuid → Time → Call
  call_restart_subgraph : RestartSubgraph → Call
  call_release : Uuid → String → Time → Call
  call_create_run : CreatePipelineRun → Call
  call_set_run_status : Uuid → ℕ → RunStatus → String → Call
  call_purge : Time → ℤ → Call

unfoldable pub step : Call → MemoryStore → MemoryStore
step (call_create request) s = (create_execution request s).1
step (call_claim owner keys limit lease) s = (claim owner keys limit lease s).1
step call_reap s = (reap_expired s).1
step (call_heartbeat id token lease) s = (heartbeat id token lease s).1
step (call_succeed id token output) s = (succeed id token output s).1
step (call_retry id token text delay) s = (retry_execution id token text delay s).1
step (call_fail id token text) s = (fail id token text s).1
step (call_cancel id reason) s = (cancel_execution id reason s).1
step (call_restart id at) s = (restart_execution id at s).1
step (call_restart_subgraph request) s = (restart_pipeline_subgraph request s).1
step (call_release id input at) s = (release_execution id input at s).1
step (call_create_run request) s = (create_pipeline_run request s).1
step (call_set_run_status id revision status text) s =
    (set_pipeline_run_status id revision status text s).1
step (call_purge before limit) s = (purge before limit s).1

unfoldable pub run_calls : List Call → MemoryStore → MemoryStore
run_calls [] s = s
run_calls (c ∷ cs) s = run_calls cs (step c s)

create_pipeline_run-IsValid :
    (request : CreatePipelineRun) (s : MemoryStore)
    → IsValid s
    → IsValid (create_pipeline_run request s).1
unfolding create_pipeline_run
create_pipeline_run-IsValid request s v = elim (Option-cases (known_run s request)) [
  | inl n ↦ rw (n, create_pipeline_run) (frame-IsValid s _ _ _ _ _ (omega arith) v)
  | inr (id, h) ↦ rw (h, create_pipeline_run) v
]

set_pipeline_run_status-IsValid :
    (id : Uuid) (revision : ℕ) (status : RunStatus) (text : String) (s : MemoryStore)
    → IsValid s
    → IsValid (set_pipeline_run_status id revision status text s).1
unfolding set_pipeline_run_status
set_pipeline_run_status-IsValid id revision status text s v =
    elim (Option-cases (lookup id s.runs)) [
      | inl n ↦ rw (n, set_pipeline_run_status) v
      | inr (run, h) ↦
          rw (h, set_pipeline_run_status)
            (elim (Bool-cases (run.revision == revision)) [
              | inl t ↦ rw t (frame-IsValid s _ _ _ _ _ (omega arith) v)
              | inr f ↦ rw f v
            ])
    ]

-- Every call, whatever its arguments and its outcome, keeps the store well-formed.
pub step-IsValid : (c : Call) (s : MemoryStore) → IsValid s → IsValid (step c s)
unfolding step
step-IsValid (call_create request) s v = create_execution-IsValid request s v
step-IsValid (call_claim owner keys limit lease) s v = claim-IsValid owner keys limit lease s v
step-IsValid call_reap s v = reap_expired-IsValid s v
step-IsValid (call_heartbeat id token lease) s v = heartbeat-IsValid id token s v lease
step-IsValid (call_succeed id token output) s v = succeed-IsValid id token s v output
step-IsValid (call_retry id token text delay) s v = retry_execution-IsValid id token s v text delay
step-IsValid (call_fail id token text) s v = fail-IsValid id token s v text
step-IsValid (call_cancel id reason) s v = cancel_execution-IsValid s v id reason
step-IsValid (call_restart id at) s v = restart_execution-IsValid s v id at
step-IsValid (call_restart_subgraph request) s v = restart_pipeline_subgraph-IsValid request s v
step-IsValid (call_release id input at) s v = release_execution-IsValid s v id input at
step-IsValid (call_create_run request) s v = create_pipeline_run-IsValid request s v
step-IsValid (call_set_run_status id revision status text) s v =
    set_pipeline_run_status-IsValid id revision status text s v
step-IsValid (call_purge before limit) s v = purge-IsValid before limit s v

run_calls-IsValid : (cs : List Call) (s : MemoryStore) → IsValid s → IsValid (run_calls cs s)
unfolding run_calls
run_calls-IsValid [] s v = v
run_calls-IsValid (c ∷ cs) s v = run_calls-IsValid cs (step c s) (step-IsValid c s v)

-- After any sequence of calls on a new store, every execution stands under its own identifier, its
-- attempts, lease and end agree with its status, and both indexes point at stored executions.
pub reachable-IsValid :
    (env : Env) (cs : List Call) → IsFaithful env → IsValid (run_calls cs (new_memory_store env))
reachable-IsValid env cs f = run_calls-IsValid cs _ (new_memory_store-IsValid env f)
