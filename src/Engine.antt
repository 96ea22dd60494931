-- ===== src/Engine.antt =====
-- pipeline/engine.go: the store that the engine uses, and the engine's parts.
-- `Persistence` is the interface of the store; `S` is the state that it keeps. A method that only
-- reads does not change it. The engine's functions take the store, the registry and the state.
pub mod Scheduling
pub mod Advance
pub mod Log
pub mod Local
pub mod Ready
pub mod Progress
use ody.Base.{String, List, ℕ}
use Prim.Native.String
use ody.Execution.{
  Error, not_found, lease_lost, active, pipeline_execution, conflict, message, wrapped, joined,
  CreatePipelineRun, Result, PipelineRun, Uuid, RunFilter, RunStatus, CreateExecution, Execution,
  Time, RestartSubgraph,
}

pub record Persistence (S : Type 0) : Type 0 where
  pub create_run : CreatePipelineRun → S → Result PipelineRun × S
  pub get_run : Uuid → S → Result PipelineRun
  pub list_runs : RunFilter → S → Result (List PipelineRun)
  pub set_status : Uuid → ℕ → RunStatus → String → S → Result (Unit {0}) × S
  pub create_task : CreateExecution → S → Result Execution × S
  pub get_task : Uuid → S → Result Execution
  pub list_tasks : Uuid → S → Result (List Execution)
  pub cancel_task : Uuid → String → S → Result (Unit {0}) × S
  pub restart_task : Uuid → Time → S → Result Execution × S
  pub restart_subgraph : RestartSubgraph → S → Result Execution × S
  pub release_task : Uuid → String → Time → S → Result (Unit {0}) × S
