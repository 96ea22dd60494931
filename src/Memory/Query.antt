-- ===== src/Memory/Query.antt =====
-- execution/memory.go: ListExecutions, ListRunExecutions, Events, ListPipelineRuns,
-- ExecutionCounts and PipelineCounts. None of them changes the store.
use ody.Base.{
  ℕ, suc, String, Bool, true, ◌&&◌, ◌||◌, Option, none, some, List, [], ◌∷◌, ◌==◌, nat_eq,
  string_eq, pair_eq, ltb, text_ltb, if◌then◌else◌, is_nonpos, to_nat, ℤ, Map, lookup, insert,
  find_or, values, select, take, contains, sort,
}
use ody.Execution.{
  Uuid, Status, status_eq, RunStatus, run_status_eq, status_text, run_status_text, Execution,
  PipelineRun, Event, ListFilter, RunFilter, ExecutionCount, PipelineCount, Cursor, Result, ok, err,
  not_found,
}
use ody.Memory.{MemoryStore, Env, newer, before_cursor}
use ody.Memory.Control.{in_run}

-- `filter.Before == nil || beforeCursor(…)`
abbrev pub on_page : Env → Option Cursor → ℕ → Uuid → Bool
on_page env none created_at id = true
on_page env (some cursor) created_at id = before_cursor env created_at id cursor

unfoldable pub selects : Env → ListFilter → Execution → Bool
unfolding before_cursor
selects env filter item =
    (filter.task_name == "" || item.task_name == filter.task_name)
    && (elim filter.status [ none ↦ true | some status ↦ item.status == status ])
    && (elim filter.pipeline_run_id [ none ↦ true | some run ↦ in_run run item ])
    && on_page env filter.before item.created_at item.id

unfoldable pub newer_execution : Env → Execution → Execution → Bool
unfolding newer
newer_execution env a b = newer env a.created_at a.id b.created_at b.id

-- `if limit > 0 && len(items) > limit { items = items[:limit] }`
abbrev pub page {ℓ} : {A : Type ℓ} → ℤ → List A → List A
page limit items = if is_nonpos limit then items else take (to_nat limit) items

unfoldable pub list_executions : ListFilter → MemoryStore → List Execution
unfolding selects newer_execution
list_executions filter s =
    page filter.limit
      (sort (newer_execution s.env) (select (selects s.env filter) (values s.executions)))

unfoldable pub list_run_executions : Uuid → MemoryStore → List Execution
list_run_executions run s =
    sort (λ a b. ltb a.created_at b.created_at) (select (in_run run) (values s.executions))

unfoldable pub events_of : Uuid → MemoryStore → Result (List Event)
events_of id s = elim (lookup id s.executions) [
  | none ↦ err not_found
  | some item ↦ ok (find_or [] id s.events)
]

unfoldable pub selects_run : Env → RunFilter → PipelineRun → Bool
unfolding before_cursor
selects_run env filter run =
    (elim filter.statuses [ [] ↦ true | status ∷ rest ↦ contains (status ∷ rest) run.status ])
    && on_page env filter.before run.created_at run.id

unfoldable pub newer_run : Env → PipelineRun → PipelineRun → Bool
unfolding newer
newer_run env a b = newer env a.created_at a.id b.created_at b.id

unfoldable pub list_pipeline_runs : RunFilter → MemoryStore → List PipelineRun
unfolding selects_run newer_run
list_pipeline_runs filter s =
    page filter.limit (sort (newer_run s.env) (select (selects_run s.env filter) (values s.runs)))

-- `counts[{name, status}]++`, over the statuses themselves in place of their texts.
unfoldable pub count_executions : List Execution → Map (String × Status) ℕ → Map (String × Status) ℕ
count_executions [] counts = counts
count_executions (item ∷ rest) counts =
    let key : String × Status = (item.task_name, item.status) in
    count_executions rest (insert key (suc (find_or 0 key counts)) counts)

abbrev execution_count : (String × Status) × ℕ → ExecutionCount
execution_count ((name, status), n) = record { task_name = name; status = status; count = n }

unfoldable pub count_before : ExecutionCount → ExecutionCount → Bool
unfolding status_text
count_before a b =
    if a.task_name == b.task_name
    then text_ltb (status_text a.status) (status_text b.status)
    else text_ltb a.task_name b.task_name

abbrev to_counts : Map (String × Status) ℕ → List ExecutionCount
to_counts [] = []
to_counts (entry ∷ rest) = execution_count entry ∷ to_counts rest

unfoldable pub execution_counts : MemoryStore → List ExecutionCount
unfolding count_executions count_before
execution_counts s = sort count_before (to_counts (count_executions (values s.executions) []))

unfoldable pub count_runs :
    List PipelineRun → Map (String × RunStatus) ℕ → Map (String × RunStatus) ℕ
count_runs [] counts = counts
count_runs (run ∷ rest) counts =
    let key : String × RunStatus = (run.pipeline_name, run.status) in
    count_runs rest (insert key (suc (find_or 0 key counts)) counts)

unfoldable pub run_count_before : PipelineCount → PipelineCount → Bool
unfolding run_status_text
run_count_before a b =
    if a.pipeline_name == b.pipeline_name
    then text_ltb (run_status_text a.status) (run_status_text b.status)
    else text_ltb a.pipeline_name b.pipeline_name

abbrev to_run_counts : Map (String × RunStatus) ℕ → List PipelineCount
to_run_counts [] = []
to_run_counts (((name, status), n) ∷ rest) =
    record { pipeline_name = name; status = status; count = n } ∷ to_run_counts rest

unfoldable pub pipeline_counts : MemoryStore → List PipelineCount
unfolding count_runs run_count_before
pipeline_counts s = sort run_count_before (to_run_counts (count_runs (values s.runs) []))
