-- ===== src/Monitoring.antt =====
-- monitoring/service.go: the read and control operations over a store and, if one is given, the engine
-- that restarts pipeline executions. The options of New are the fields of `Service`.
pub mod Restart
use ody.Base.{Option, List, String, none, some}
use ody.Execution.{
  Uuid, Time, Execution, Event, PipelineRun, ListFilter, RunFilter, Result, ok, err, ◌>>=◌,
  pipeline_execution,
}

pub record TaskDetails : Type 0 where
  pub execution : Execution
  pub events : List Event

pub record PipelineDetails : Type 0 where
  pub run : PipelineRun
  pub executions : List Execution

-- The methods of the store that the service calls.
pub record Store (S : Type 0) : Type 0 where
  pub list_executions : ListFilter → S → Result (List Execution)
  pub get_execution : Uuid → S → Result Execution
  pub events : Uuid → S → Result (List Event)
  pub list_pipeline_runs : RunFilter → S → Result (List PipelineRun)
  pub get_pipeline_run : Uuid → S → Result PipelineRun
  pub list_run_executions : Uuid → S → Result (List Execution)
  pub restart_execution : Uuid → Time → S → Result Execution × S
  pub cancel_execution : Uuid → String → S → Result (Unit {0}) × S

pub record Service (S : Type 0) : Type 0 where
  pub store : Store S
  pub pipeline_restarter : Option (Uuid → S → Result Execution × S)

module _ {S : Type 0} (service : Service S) where
  unfoldable pub list_tasks : ListFilter → S → Result (List Execution)
  list_tasks = service.store.list_executions

  unfoldable pub task : Uuid → S → Result TaskDetails
  task id s = do
    item ← service.store.get_execution id s
    events ← service.store.events id s
    ok (record { execution = item; events = events })

  unfoldable pub list_pipelines : RunFilter → S → Result (List PipelineRun)
  list_pipelines = service.store.list_pipeline_runs

  unfoldable pub pipeline : Uuid → S → Result PipelineDetails
  pipeline id s = do
    run ← service.store.get_pipeline_run id s
    items ← service.store.list_run_executions id s
    ok (record { run = run; executions = items })

  unfoldable pub restart_task : Uuid → S → Result Execution × S
  restart_task id s = elim (service.store.get_execution id s) [
    | err e ↦ (err e, s)
    | ok item ↦ elim item.pipeline_run_id [
      | none ↦ service.store.restart_execution id 0 s
      | some run ↦ elim service.pipeline_restarter [
        | none ↦ (err pipeline_execution, s)
        | some restart ↦ restart id s
      ]
    ]
  ]

  unfoldable pub cancel_task : Uuid → String → S → Result (Unit {0}) × S
  cancel_task = service.store.cancel_execution
