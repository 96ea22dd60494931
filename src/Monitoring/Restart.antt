-- ===== src/Monitoring/Restart.antt =====
-- The monitoring service (monitoring/service.go) over `MemoryStore` (execution/memory.go).
use ody.Base.{
  ◌≡◌, none, some, Option, lookup, Option-cases, inl, inr, refl, is_some, if◌then◌else◌, nat_eq,
}
use ody.Monitoring.{Store, Service, restart_task}
use ody.Memory.{MemoryStore}
use ody.Memory.Create.{get_execution}
use ody.Memory.Control.{restart_execution, cancel_execution}
use ody.Memory.Runs.{get_pipeline_run}
use ody.Memory.Query.{list_executions, list_run_executions, list_pipeline_runs, events_of}
use ody.Execution.{Uuid, Execution, Result, ok}

abbrev pub memory_monitoring : Store MemoryStore
memory_monitoring = record {
  list_executions = λ filter s. ok (list_executions filter s);
  get_execution = get_execution;
  events = events_of;
  list_pipeline_runs = λ filter s. ok (list_pipeline_runs filter s);
  get_pipeline_run = get_pipeline_run;
  list_run_executions = λ run s. ok (list_run_executions run s);
  restart_execution = restart_execution;
  cancel_execution = cancel_execution;
}

abbrev pub memory_service :
    Option (Uuid → MemoryStore → Result Execution × MemoryStore) → Service MemoryStore
memory_service restarter = record { store = memory_monitoring; pipeline_restarter = restarter }

-- The execution belongs to a pipeline, and a restarter is there.
abbrev pub is_delegated :
    Option (Uuid → MemoryStore → Result Execution × MemoryStore)
    → Option Execution
    → Option (Uuid → MemoryStore → Result Execution × MemoryStore)
is_delegated restarter none = none
is_delegated restarter (some item) = if is_some item.pipeline_run_id then restarter else none

-- RestartTask hands an execution of a pipeline to the restarter, if there is one; any other call, also
-- one that fails, does exactly what RestartExecution of MemoryStore does at the present time.
pub restart_task_delegates :
    (restarter : Option (Uuid → MemoryStore → Result Execution × MemoryStore)) (id : Uuid)
    (s : MemoryStore)
    → restart_task (memory_service restarter) id s
      ≡ elim (is_delegated restarter (lookup id s.executions)) [
        | none ↦ restart_execution id 0 s
        | some restart ↦ restart id s
      ]
unfolding restart_task get_execution restart_execution
restart_task_delegates restarter id s = elim (Option-cases (lookup id s.executions)) [
  | inl n ↦ rw (n, restart_task, get_execution) (rw (n, restart_execution) refl)
  | inr (item, y) ↦ elim (Option-cases item.pipeline_run_id) [
    | inl p ↦ rw (y, p, restart_task, get_execution, restart_execution) refl
    | inr (run, p) ↦ elim (Option-cases restarter) [
      | inl r ↦ rw (y, p, r, restart_task, get_execution) (rw (y, p, restart_execution) refl)
      | inr (f, r) ↦ rw (y, p, r, restart_task, get_execution, restart_execution) refl
    ]
  ]
]
