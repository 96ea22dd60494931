-- ===== src/Engine/Advance.antt =====
-- pipeline/engine.go: Advance, Run, RestartExecution, Reconcile, Inspect, Cancel and Output.
use ody.Execution.Errors.{is_conflict}
use ody.Base.{
  String, List, Option, if◌then◌else◌, Bool, ℕ, lookup, ◌∷◌, [], none, ◌==◌, some, false, suc, ◌++◌,
  pos, pair_eq, string_eq, int_eq, not, true, zero,
}
use ody.Engine.{Persistence}
use ody.Engine.Scheduling.{collect, advance_found}
use ody.Pipeline.{Definition, Node, Registry, compile, descendant_keys}
use ody.Execution.{
  Uuid, Error, Result, ok, err, message, wrapped, joined, not_found, conflict, Execution,
  PipelineRun, CreatePipelineRun, RunFilter, run_pending, run_running, run_cancelled,
  is_terminal_run, status_eq, succeeded, is_active,
}

-- The execution of a node that Output reads, with its decoding by `json.Unmarshal`.
unfoldable pub output_among {ℓ} :
    {O : Type ℓ} → (String → Result O) → Node → List Execution → Result O
output_among decode node [] = err not_found
output_among decode node (item ∷ rest) =
    let later = output_among decode node rest in
    if item.node_key == node.key
    then (if not (item.status == succeeded)
        then err (message "node is not done")
        else decode item.output)
    else later

-- The error for a pipeline that the registry does not hold.
abbrev pub unregistered : Error
unregistered = message "pipeline definition is not registered"

abbrev pub definition_of : Registry → PipelineRun → Option Definition
definition_of registry run = lookup (run.pipeline_name, run.pipeline_version) registry

-- `errors.Is(err, execution.ErrConflict)` of what advanceOnce returns.
abbrev pub is_conflicting : Result (Unit {0}) → Bool
is_conflicting (ok u) = false
is_conflicting (err e) = is_conflict e

module _ {S : Type 0} (p : Persistence S) (uuid_text : Uuid → String) (run_id : Uuid) where
  unfoldable pub advance_run : Registry → PipelineRun → S → Result (Unit {0}) × S
  unfolding collect advance_found
  advance_run registry run s =
      if is_terminal_run run.status then (ok tt, s) else elim (definition_of registry run) [
        | none ↦ (err unregistered, s)
        | some definition ↦ elim (p.list_tasks run_id s) [
          | err e ↦ (err e, s)
          | ok executions ↦
              advance_found p uuid_text run_id run definition (collect executions [] []) s
        ]
      ]

  unfoldable pub advance_once : Registry → S → Result (Unit {0}) × S
  unfolding advance_run
  advance_once registry s = elim (p.get_run run_id s) [
    | err e ↦ (err e, s)
    | ok run ↦ advance_run registry run s
  ]

  unfoldable pub advance_rounds : ℕ → Registry → S → Result (Unit {0}) × S
  unfolding advance_once is_conflict
  advance_rounds zero registry s = (err (wrapped "advance pipeline" conflict), s)
  advance_rounds (suc rounds) registry s =
      let (r, s') = advance_once registry s in
      elim (is_conflicting r) [ true ↦ advance_rounds rounds registry s' | false ↦ (r, s') ]

  -- `for range 4`
  unfoldable pub advance : Registry → S → Result (Unit {0}) × S
  unfolding advance_rounds
  advance registry s = advance_rounds 4 registry s

  -- Cancel's loop over the executions of the run.
  unfoldable pub cancel_active : String → List Execution → S → Result (Unit {0}) × S
  unfolding is_active
  cancel_active reason [] s = (ok tt, s)
  cancel_active reason (item ∷ rest) s = elim (is_active item.status) [
    | false ↦ cancel_active reason rest s
    | true ↦
        (let (r, s') = p.cancel_task item.id reason s in
          elim r [ err e ↦ (err e, s') | ok u ↦ cancel_active reason rest s' ])
  ]

  unfoldable pub cancel_run : String → S → Result (Unit {0}) × S
  unfolding cancel_active
  cancel_run reason s = elim (p.get_run run_id s) [
    | err e ↦ (err e, s)
    | ok run ↦ elim (p.list_tasks run_id s) [
      | err e ↦ (err e, s)
      | ok items ↦
          (let (r, s') = cancel_active reason items s in
            elim r [
              | err e ↦ (err e, s')
              | ok u ↦ p.set_status run_id run.revision run_cancelled reason s'
            ])
    ]
  ]

  unfoldable pub inspect : S → Result (PipelineRun × List Execution)
  inspect s = elim (p.get_run run_id s) [
    | err e ↦ err e
    | ok run ↦ elim (p.list_tasks run_id s) [ err e ↦ err e | ok items ↦ ok (run, items) ]
  ]

  unfoldable pub output {ℓ} : {O : Type ℓ} → (String → Result O) → Node → S → Result O
  unfolding output_among
  output decode node s = elim (p.list_tasks run_id s) [
    | err e ↦ err e
    | ok items ↦ output_among decode node items
  ]

-- `errors.Join(failures...)`, which is nil for no failures.
abbrev pub join_errors : List Error → Result (Unit {0})
join_errors [] = ok tt
join_errors (e ∷ rest) = elim (join_errors rest) [ ok u ↦ err e | err f ↦ err (joined e f) ]

abbrev pub unfinished : RunFilter
unfinished = record { statuses = run_pending ∷ run_running ∷ []; limit = pos 0; before = none }

module _ {S : Type 0} (p : Persistence S) (uuid_text : Uuid → String) (registry : Registry) where
  -- `json.Marshal` of the input is given by its result; the options set the idempotency key.
  unfoldable pub run_request : Definition → String → String → CreatePipelineRun
  run_request definition raw key = record {
    pipeline_name = definition.name;
    pipeline_version = definition.version;
    input = raw;
    idempotency_key = key;
  }

  -- CreatePipelineRun, Advance and GetPipelineRun.
  unfoldable pub launch : CreatePipelineRun → S → Result PipelineRun × S
  unfolding advance
  launch request s =
      let (r, s') = p.create_run request s in
      elim r [
        | err e ↦ (err e, s')
        | ok run ↦
            (let (advanced, s'') = advance p uuid_text run.id registry s' in
              elim advanced [ err e ↦ (err e, s'') | ok u ↦ (p.get_run run.id s'', s'') ])
      ]

  unfoldable pub run_pipeline : Definition → Result String → String → S → Result PipelineRun × S
  unfolding run_request launch compile
  run_pipeline definition raw key s = elim (compile definition) [
    | err e ↦ (err e, s)
    | ok compiled ↦ elim (lookup (compiled.name, compiled.version) registry) [
      | none ↦ (err unregistered, s)
      | some registered ↦ elim raw [
        | err e ↦ (err (wrapped "encode pipeline input" e), s)
        | ok input ↦ launch (run_request compiled input key) s
      ]
    ]
  ]

  unfoldable pub restart_node : Execution → Uuid → PipelineRun → S → Result Execution × S
  unfolding descendant_keys advance
  restart_node item run_id run s = elim (definition_of registry run) [
    | none ↦ (err unregistered, s)
    | some definition ↦ elim (descendant_keys definition item.node_key).1 [
      | false ↦ (err (message "pipeline node is not registered"), s)
      | true ↦
          (let (r, s') =
              p.restart_subgraph
                (record {
                  run_id = run_id;
                  root_node_key = item.node_key;
                  descendant_keys = (descendant_keys definition item.node_key).0;
                  available_at = 0;
                })
                s in
            elim r [
              | err e ↦ (err e, s')
              | ok restarted ↦
                  (let (advanced, s'') = advance p uuid_text run_id registry s' in
                    elim advanced [ err e ↦ (err e, s'') | ok u ↦ (ok restarted, s'') ])
            ])
    ]
  ]

  unfoldable pub restart : Uuid → S → Result Execution × S
  unfolding restart_node
  restart id s = elim (p.get_task id s) [
    | err e ↦ (err e, s)
    | ok item ↦ elim item.pipeline_run_id [
      | none ↦ p.restart_task id 0 s
      | some run_id ↦ elim (p.get_run run_id s) [
        | err e ↦ (err e, s)
        | ok run ↦ restart_node item run_id run s
      ]
    ]
  ]

  -- Reconcile's loop, with the failures so far.
  unfoldable pub advance_each : List PipelineRun → List Error → S → List Error × S
  unfolding advance
  advance_each [] failures s = (failures, s)
  advance_each (run ∷ rest) failures s =
      let (r, s') = advance p uuid_text run.id registry s in
      advance_each rest
        (elim r [ ok u ↦ failures | err e ↦ failures ++ wrapped "advance pipeline run" e ∷ [] ]) s'

  unfoldable pub reconcile : S → Result (Unit {0}) × S
  unfolding advance_each
  reconcile s = elim (p.list_runs unfinished s) [
    | err e ↦ (err e, s)
    | ok runs ↦ (let (failures, s') = advance_each runs [] s in (join_errors failures, s'))
  ]
