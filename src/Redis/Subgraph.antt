-- ===== src/Redis/Subgraph.antt =====
-- execution/redis/store.go: RestartPipelineSubgraph. `events id n` is the identifier of the event of one
-- execution in one try.
use ody.Redis.Encoding.{StoredRun, score}
use ody.Base.{
  String, List, if◌then◌else◌, Option, ◌==◌, none, ℕ, ◌∷◌, some, true, ◌++◌, map, string_eq, [],
  not, false,
}
use ody.Redis.{
  send, abort, zrem, zadd, set, rpush, Codec, Server, Plan, Command, Ended, node_key, pipeline_key,
  execution_key, leases_key, queue_key, events_key,
}
use ody.Redis.Watch.{watch, get_execution_tx}
use ody.Redis.RunUpdate.{read_run, change_status, save_stored}
use ody.Redis.Operations.{reset, start_time}
use ody.Redis.Transition.{move_count, move_status, encode_event}
use ody.Execution.{
  ◌>>=◌, restarted, active, Time, Execution, Uuid, run_running, Status, Result, is_active,
  RestartSubgraph, err, ok, pending, not_found, blocked, status_eq,
}

-- What is written of the run: running, without an end.
abbrev pub resume : Time → StoredRun → StoredRun
unfolding change_status
resume at run = change_status run_running "" at run

-- The execution of a node as it is written: the root pending, the others blocked.
unfoldable pub restart_node : String → Time → Execution → Execution
unfolding reset
restart_node root available_at item = record (reset available_at item) {
  status = if item.node_key == root then pending else blocked;
}

-- `root` and `foundRoot`, after the loop.
unfoldable pub last_root : String → List Execution → Option Execution
last_root root [] = none
last_root root (item ∷ items) =
    let rest = last_root root items in
    elim rest [ some found ↦ some found | none ↦ if item.node_key == root then some item else none ]

module _ (codec : Codec) where
  -- The commands of one node.
  unfoldable pub node_commands : Uuid → Status → Time → Execution → Result (List Command)
  unfolding score
  node_commands event_id previous at item = do
    encoded ← codec.execution_json item
    event ← encode_event codec event_id item restarted "" at
    ok (
        set (execution_key codec item.id) encoded
        ∷ ((if not (previous == item.status) then move_count codec item previous else [])
            ++ (move_status codec item previous
                ++ (zrem (leases_key codec) (codec.uuid_text item.id)
                    ∷ (if item.status == pending
                        then zadd (queue_key codec item.task_name) (score item.available_at)
                            (codec.uuid_text item.id)
                        else zrem (queue_key codec item.task_name) (codec.uuid_text item.id))
                    ∷ rpush (events_key codec item.id) event
                    ∷ []))))

  module _ (root : String) (available_at at : Time) where
    -- The loop over the nodes in the transaction, with the executions as they are written.
    unfoldable pub restart_nodes :
        (Uuid → Uuid) → List Execution → Result (List Execution × List Command)
    unfolding node_commands restart_node
    restart_nodes events [] = ok ([], [])
    restart_nodes events (item ∷ items) = do
      commands ← node_commands (events item.id) item.status at (restart_node root available_at item)
      (others, more) ← restart_nodes events items
      ok (restart_node root available_at item ∷ others, commands ++ more)

    unfoldable pub plan_subgraph : (Uuid → Uuid) → StoredRun → List Execution → Plan Execution
    unfolding restart_nodes last_root save_stored
    plan_subgraph events run items = elim (restart_nodes events items) [
      | err e ↦ abort e
      | ok (written, commands) ↦ elim (last_root root written) [
        | none ↦ abort not_found
        | some item ↦ send item (commands ++ save_stored codec run.id (resume at run) run.status)
      ]
    ]

  module _ {R : Type 0} (server : Server R) where
    -- The executions of the nodes that have one.
    unfoldable pub find_nodes : Uuid → List String → R → Result (List Uuid)
    find_nodes run [] s = ok []
    find_nodes run (node ∷ nodes) s = elim (server.get (node_key codec run node) s) [
      | err e ↦ err e
      | ok none ↦ find_nodes run nodes s
      | ok (some value) ↦ (do
        id ← codec.parse_uuid value
        ids ← find_nodes run nodes s
        ok (id ∷ ids))
    ]

    -- The records of the nodes, none of which is active.
    unfoldable pub read_nodes : List Uuid → R → Result (List Execution)
    unfolding get_execution_tx is_active
    read_nodes [] s = ok []
    read_nodes (id ∷ ids) s = elim (get_execution_tx server codec id s) [
      | err e ↦ err e
      | ok item ↦ elim (is_active item.status) [
        | true ↦ err active
        | false ↦ (do items ← read_nodes ids s; ok (item ∷ items))
      ]
    ]

    unfoldable pub subgraph_try :
        RestartSubgraph → List Uuid → Time → (Uuid → Uuid) → R → Plan Execution
    unfolding read_run read_nodes plan_subgraph
    subgraph_try request ids at events s = elim (read_run codec server request.run_id s) [
      | err e ↦ abort e
      | ok run ↦ elim (read_nodes ids s) [
        | err e ↦ abort e
        | ok items ↦
            plan_subgraph request.root_node_key (start_time request.available_at at) at events run
              items
      ]
    ]

    unfoldable pub restart_pipeline_subgraph :
        RestartSubgraph → (Uuid → ℕ → Uuid) → R → Result (Ended Execution) × R
    unfolding watch subgraph_try find_nodes
    restart_pipeline_subgraph request events s = elim (server.time s) [
      | err e ↦ (err e, s)
      | ok at ↦
          elim (find_nodes request.run_id (request.root_node_key ∷ request.descendant_keys) s) [
            | err e ↦ (err e, s)
            | ok ids ↦
                watch server (pipeline_key codec request.run_id ∷ map (execution_key codec) ids) 16
                  (λ n. subgraph_try request ids at (λ id. events id n)) s
          ]
    ]
