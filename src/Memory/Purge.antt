-- ===== src/Memory/Purge.antt =====
-- execution/memory.go: Purge and deleteExecution.
use ody.Base.{
  ℕ, suc, String, Bool, true, false, not, ◌&&◌, none, some, List, [], ◌∷◌, ◌++◌, ◌==◌, string_eq,
  nat_eq, ltb, if◌then◌else◌, is_some, is_nonpos, to_nat, ℤ, Map, for_range, delete, find_or, take,
  sort,
}
use ody.Execution.{Uuid, Time, Execution, PipelineRun, PurgeResult}
use ody.Memory.{MemoryStore, zero_execution, zero_run, idempotency_index, node_index}
use ody.Memory.Control.{in_run}

pub record Candidate : Type 0 where
  pub id : Uuid
  pub finished : Time
  pub pipeline : Bool

unfoldable pub run_candidates : Time → Map Uuid PipelineRun → List Candidate
run_candidates before [] = []
run_candidates before ((id, run) ∷ rest) =
    let later = run_candidates before rest in
    elim run.finished_at [
      | none ↦ later
      | some t ↦
          if ltb t before then record { id = id; finished = t; pipeline = true } ∷ later else later
    ]

unfoldable pub execution_candidates : Time → Map Uuid Execution → List Candidate
execution_candidates before [] = []
execution_candidates before ((id, item) ∷ rest) =
    let later = execution_candidates before rest in
    elim item.finished_at [
      | none ↦ later
      | some t ↦
          if not (is_some item.pipeline_run_id) && ltb t before
          then record { id = id; finished = t; pipeline = false } ∷ later
          else later
    ]

unfoldable pub purge_candidates : Time → ℤ → MemoryStore → List Candidate
unfolding run_candidates execution_candidates
purge_candidates before limit s = take (if is_nonpos limit then 1000 else to_nat limit) (
    sort (λ a b. ltb a.finished b.finished)
      (run_candidates before s.runs ++ execution_candidates before s.executions))

-- `if key != "" { delete(m, index) }`
abbrev pub forget : String → String → Map String Uuid → Map String Uuid
forget key index m = if key == "" then m else delete index m

unfoldable pub delete_execution : Uuid → Execution → MemoryStore → MemoryStore
delete_execution id item s = record s {
  executions = delete id s.executions;
  events = delete id s.events;
  idempotent =
      forget item.idempotency_key (idempotency_index item.task_name item.idempotency_key)
        s.idempotent;
  nodes = elim item.pipeline_run_id [
    | none ↦ s.nodes
    | some run ↦ delete (node_index s.env run item.node_key) s.nodes
  ];
}

-- One turn of the loop over the executions of a purged run.
unfoldable pub delete_member : Uuid → Uuid → Execution → ℕ × MemoryStore → ℕ × MemoryStore
unfolding delete_execution
delete_member run id item (n, s) =
    if in_run run item then (suc n, delete_execution id item s) else (n, s)

unfoldable pub purge_run : Uuid → PurgeResult × MemoryStore → PurgeResult × MemoryStore
unfolding delete_member for_range
purge_run id (result, s) =
    let run = find_or zero_run id s.runs in
    let (deleted, s') = for_range (delete_member id) s.executions (result.executions, s) in
    (
      record { executions = deleted; pipeline_runs = suc result.pipeline_runs },
      record s' {
        runs = delete id s'.runs;
        run_idempotent =
            forget run.idempotency_key (idempotency_index run.pipeline_name run.idempotency_key)
              s'.run_idempotent;
      },
    )

unfoldable pub purge_one : Candidate → PurgeResult × MemoryStore → PurgeResult × MemoryStore
unfolding purge_run delete_execution
purge_one candidate (result, s) =
    if candidate.pipeline then purge_run candidate.id (result, s) else (
      record result { executions = suc result.executions },
      delete_execution candidate.id (find_or zero_execution candidate.id s.executions) s,
    )

unfoldable pub purge_each : List Candidate → PurgeResult × MemoryStore → PurgeResult × MemoryStore
unfolding purge_one
purge_each [] r = r
purge_each (candidate ∷ rest) r = purge_each rest (purge_one candidate r)

unfoldable pub purge : Time → ℤ → MemoryStore → PurgeResult × MemoryStore
unfolding purge_candidates purge_each
purge before limit s =
    purge_each (purge_candidates before limit s) (record { executions = 0; pipeline_runs = 0 }, s)
