-- ===== src/Memory/Transition.antt =====
-- The state machine of an execution: what each method of `MemoryStore` (execution/memory.go) may
-- make of one that is stored before and after the call.
pub mod Loops
pub mod Steps
pub mod Machine
use ody.Base.{ℤ, suc, ◌≤◌, ◌<◌, false, none, true, ◌⊎◌}
use ody.Memory.{MemoryStore, ◌≡◌, String, List}
use ody.Memory.Valid.Claim.{WasEligible}
use ody.Memory.Valid.Reachable.{
  Call, call_claim, call_reap, call_heartbeat, call_succeed, call_retry, call_fail, call_cancel,
  call_restart, call_restart_subgraph, call_release,
}
use ody.Execution.{
  Uuid, nil_uuid, Time, Duration, TaskKey, Execution, RestartSubgraph, pending, blocked, running,
  retry, succeeded, failed, cancelled, is_terminal, is_active,
}
use ody.Memory.Control.{is_affected}

-- The token is that of the lease under which the execution runs.
pub record HeldBy (token : Uuid) (e : Execution) : Type 0 where
  pub delivered : e.status ≡ running
  pub token_of : e.lease_token ≡ token

pub data Edge (e f : Execution) : Call → Type 0 where
  claimed :
      {owner : String} {keys : List TaskKey} {limit : ℤ} {lease : Duration} (at : Time)
      → WasEligible keys at e
      → f.status ≡ running
      → f.attempt ≡ suc e.attempt
      → Edge e f (call_claim owner keys limit lease)
  reaped : e.status ≡ running → e.max_attempts ≤ e.attempt → f.status ≡ failed → Edge e f call_reap
  renewed :
      {id token : Uuid} {lease : Duration}
      → HeldBy token e
      → HeldBy token f
      → Edge e f (call_heartbeat id token lease)
  completed :
      {id token : Uuid} {output : String}
      → HeldBy token e
      → f.status ≡ succeeded
      → f.output ≡ output
      → Edge e f (call_succeed id token output)
  postponed :
      {id token : Uuid} {text : String} {delay : Duration}
      → HeldBy token e
      → e.attempt < e.max_attempts
      → f.status ≡ retry
      → Edge e f (call_retry id token text delay)
  exhausted :
      {id token : Uuid} {text : String} {delay : Duration}
      → HeldBy token e
      → e.max_attempts ≤ e.attempt
      → f.status ≡ failed
      → Edge e f (call_retry id token text delay)
  given_up :
      {id token : Uuid} {text : String}
      → HeldBy token e
      → f.status ≡ failed
      → Edge e f (call_fail id token text)
  dropped :
      {id : Uuid} {reason : String}
      → is_terminal e.status ≡ false
      → f.status ≡ cancelled
      → Edge e f (call_cancel id reason)
  rerun :
      {id : Uuid} {at : Time}
      → is_active e.status ≡ false
      → e.pipeline_run_id ≡ none
      → f.status ≡ pending
      → f.attempt ≡ 0
      → Edge e f (call_restart id at)
  rerun_node :
      {request : RestartSubgraph}
      → is_affected request e ≡ true
      → is_active e.status ≡ false
      → (f.status ≡ pending) ⊎ (f.status ≡ blocked)
      → f.attempt ≡ 0
      → Edge e f (call_restart_subgraph request)
  released :
      {id : Uuid} {input : String} {at : Time}
      → e.status ≡ blocked
      → f.status ≡ pending
      → f.input ≡ input
      → Edge e f (call_release id input at)
