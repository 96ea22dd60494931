-- ===== src/Memory/Control.antt =====
-- execution/memory.go: CancelExecution, RestartExecution, RestartPipelineSubgraph and
-- ReleaseExecution.
use Prim.Native.Nat.{◌%◌, ◌^◌}
use ody.Base.{
  ℕ, String, ◌+◌, Bool, false, ◌&&◌, ◌||◌, not, Option, none, some, [], ◌∷◌, ◌==◌, nat_eq,
  string_eq, if◌then◌else◌, is_some, Map, for_range, lookup, insert, contains,
}
use ody.Execution.{
  Uuid, Time, Status, pending, blocked, cancelled, status_eq, run_running, Execution, PipelineRun,
  RestartSubgraph, event_cancelled, restarted, is_terminal, is_active, Result, ok, err, not_found,
  active, pipeline_execution,
}
use ody.Memory.{MemoryStore, now, after_now, put_execution, commit, clear_lease}

unfoldable pub cancel : String → Time → Execution → Execution
cancel reason at item =
    clear_lease (record item { status = cancelled; last_error = reason; finished_at = some at })

unfoldable pub cancel_execution : Uuid → String → MemoryStore → Result (Unit {0}) × MemoryStore
unfolding cancel commit is_terminal
cancel_execution id reason s = elim (lookup id s.executions) [
  | none ↦ (err not_found, s)
  | some item ↦
      if is_terminal item.status
      then (err not_found, s)
      else (ok tt, commit (after_now s) id (cancel reason (now s) item) event_cancelled reason)
]

-- The reset that both ways of restarting make.
unfoldable pub reset : Status → Time → Execution → Execution
reset status available_at item = clear_lease (record item {
  status = status;
  attempt = 0;
  available_at = available_at;
  output = "";
  last_error = "";
  started_at = none;
  finished_at = none;
})

-- `if availableAt.IsZero() { availableAt = s.now() }`
abbrev pub start_time : Time → MemoryStore → Time
start_time available_at s = if available_at == 0 then now s else available_at

abbrev pub after_start : Time → MemoryStore → MemoryStore
after_start available_at s = if available_at == 0 then after_now s else s

unfoldable pub restart_execution : Uuid → Time → MemoryStore → Result Execution × MemoryStore
unfolding reset commit is_active
restart_execution id available_at s = elim (lookup id s.executions) [
  | none ↦ (err not_found, s)
  | some item ↦
      if is_some item.pipeline_run_id
      then (err pipeline_execution, s)
      else if is_active item.status
      then (err active, s)
      else (let fresh = reset pending (start_time available_at s) item in
          (ok fresh, commit (after_start available_at s) id fresh restarted ""))
]

-- `item.PipelineRunID != nil && *item.PipelineRunID == runID`
abbrev pub in_run : Uuid → Execution → Bool
in_run run item = elim item.pipeline_run_id [ none ↦ false | some r ↦ r == run ]

unfoldable pub is_affected : RestartSubgraph → Execution → Bool
is_affected request item =
    in_run request.run_id item
    && (item.node_key == request.root_node_key || contains request.descendant_keys item.node_key)

-- The first loop: refuse while an affected node is active, and find the root.
unfoldable pub find_root :
    RestartSubgraph → Map Uuid Execution → Option Execution → Result (Option Execution)
unfolding is_affected is_active
find_root request [] root = ok root
find_root request ((id, item) ∷ rest) root =
    let later = find_root request rest (
      if is_affected request item && item.node_key == request.root_node_key
      then some item
      else root) in
    if is_affected request item && is_active item.status then err active else later

-- The status that the second loop gives to a node.
abbrev pub subgraph_status : RestartSubgraph → Execution → Status
subgraph_status request item = if item.node_key == request.root_node_key then pending else blocked

-- One turn of the second loop: the root becomes pending, its descendants blocked.
unfoldable pub reset_one : RestartSubgraph → Time → Uuid → Execution → MemoryStore → MemoryStore
unfolding is_affected reset commit
reset_one request at id item s =
    if is_affected request item
    then commit s id (reset (subgraph_status request item) at item) restarted ""
    else s

-- uint64
abbrev pub next_revision : ℕ → ℕ
next_revision n = (n + 1) % 2 ^ 64

unfoldable pub reopen : Time → PipelineRun → PipelineRun
reopen at run = record run {
  status = run_running;
  error = "";
  finished_at = none;
  updated_at = at;
  revision = next_revision run.revision;
}

unfoldable pub restart_found :
    RestartSubgraph → PipelineRun → Execution → MemoryStore → Result Execution × MemoryStore
unfolding reset_one reset for_range reopen
restart_found request run root s =
    let at = if request.available_at == 0 then now s else request.available_at in
    let s' = for_range (reset_one request at) s.executions (after_now s) in
    (ok (reset pending at root), record s' { runs = insert run.id (reopen (now s) run) s'.runs })

-- What the first loop returned: an error, no root, or the root.
unfoldable pub restart_checked :
    RestartSubgraph
    → PipelineRun
    → Result (Option Execution)
    → MemoryStore
    → Result Execution × MemoryStore
unfolding restart_found
restart_checked request run (err e) s = (err e, s)
restart_checked request run (ok none) s = (err not_found, s)
restart_checked request run (ok (some root)) s = restart_found request run root s

unfoldable pub restart_pipeline_subgraph :
    RestartSubgraph → MemoryStore → Result Execution × MemoryStore
unfolding find_root restart_checked
restart_pipeline_subgraph request s = elim (lookup request.run_id s.runs) [
  | none ↦ (err not_found, s)
  | some run ↦ restart_checked request run (find_root request s.executions none) s
]

unfoldable pub release : String → Time → Execution → Execution
release input available_at item = record item {
  status = pending;
  input = input;
  available_at = available_at;
}

unfoldable pub release_execution :
    Uuid → String → Time → MemoryStore → Result (Unit {0}) × MemoryStore
unfolding release put_execution
release_execution id input available_at s = elim (lookup id s.executions) [
  | none ↦ (err not_found, s)
  | some item ↦ if not (item.status == blocked) then (err active, s) else (
    ok tt,
    put_execution (after_start available_at s) id (release input (start_time available_at s) item),
  )
]
