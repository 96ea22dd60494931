-- ===== src/Engine/Local.antt =====
-- `MemoryStore` (execution/memory.go) as the store of the engine (pipeline/engine.go).
use ody.Engine.{Persistence}
use ody.Memory.{MemoryStore}
use ody.Memory.Create.{create_execution, get_execution}
use ody.Memory.Control.{
  cancel_execution, restart_execution, restart_pipeline_subgraph, release_execution,
}
use ody.Memory.Runs.{create_pipeline_run, get_pipeline_run, set_pipeline_run_status}
use ody.Memory.Query.{list_run_executions, list_pipeline_runs}
use ody.Execution.{ok}

abbrev pub memory_persistence : Persistence MemoryStore
memory_persistence = record {
  create_run = create_pipeline_run;
  get_run = get_pipeline_run;
  list_runs = λ filter s. ok (list_pipeline_runs filter s);
  set_status = set_pipeline_run_status;
  create_task = create_execution;
  get_task = get_execution;
  list_tasks = λ run s. ok (list_run_executions run s);
  cancel_task = cancel_execution;
  restart_task = restart_execution;
  restart_subgraph = restart_pipeline_subgraph;
  release_task = release_execution;
}
