-- ===== src/Redis/Steps.antt =====
-- execution/redis/store.go: the operations on one execution, by the transaction that they plan.
use ody.Redis.Subgraph.{node_commands, restart_node}
use ody.Base.{String, List, nat_eq, ◌≡◌, string_eq}
use ody.Execution.{Time, Execution, Uuid, Duration, TaskKey, status_eq, ok}
use ody.Redis.{Codec, Plan, send, Command}
use ody.Redis.Transition.{transition, heartbeat}
use ody.Redis.Operations.{
  succeeding, retrying, failing, claim_candidate, cancel_execution, reap_candidate,
  restart_execution, release_execution,
}

-- The transaction that an operation plans on a record at a time; of RestartPipelineSubgraph, the part on
-- the execution of one node.
pub data Step (codec : Codec) (at : Time) (item : Execution) : Plan Execution → Type 0 where
  step_heartbeat :
      (token : Uuid) (lease : Duration) → Step codec at item (heartbeat codec token lease at item)
  step_succeed :
      (event_id token : Uuid) (output : String)
      → Step codec at item (transition codec event_id token (succeeding output) at item)
  step_retry :
      (event_id token : Uuid) (text : String) (delay : Duration)
      → Step codec at item (transition codec event_id token (retrying text delay) at item)
  step_fail :
      (event_id token : Uuid) (text : String)
      → Step codec at item (transition codec event_id token (failing text) at item)
  step_claim :
      (event_id : Uuid) (owner : String) (token : Uuid) (accepted : List TaskKey) (lease : Duration)
      → Step codec at item (claim_candidate codec event_id owner token accepted lease at item)
  step_reap : (event_id : Uuid) → Step codec at item (reap_candidate codec event_id at item)
  step_cancel :
      (event_id : Uuid) (reason : String)
      → Step codec at item (cancel_execution codec event_id reason at item)
  step_restart :
      (event_id : Uuid) (available_at : Time)
      → Step codec at item (restart_execution codec event_id available_at at item)
  step_release :
      (input : String) (available_at : Time)
      → Step codec at item (release_execution codec input available_at at item)
  step_node :
      (event_id : Uuid) (root : String) (available_at : Time) (commands : List Command)
      → node_commands codec event_id item.status at (restart_node root available_at item)
        ≡ ok commands
      → Step codec at item (send (restart_node root available_at item) commands)
