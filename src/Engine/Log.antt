-- ===== src/Engine/Log.antt =====
-- A store of the engine (pipeline/engine.go) that keeps the calls by which the engine moves a run.
use ody.Base.{ℕ, List, ◌∷◌}
use ody.Engine.{Persistence}
use ody.Execution.{Uuid, RunStatus, CreateExecution}

-- CreateExecution, ReleaseExecution and SetPipelineRunStatus.
pub data Action : Type 0 where
  create_call : CreateExecution → Action
  release_call : Uuid → Action
  status_call : Uuid → ℕ → RunStatus → Action

-- The outcome of a call, with the log that it leaves.
abbrev with_log {ℓ κ} : {A : Type ℓ} {S : Type κ} → List Action → A × S → A × (List Action × S)
with_log log outcome = (outcome.0, (log, outcome.1))

-- The store `p`, with the actions in front of the state, the latest first.
abbrev pub logged : {S : Type 0} → Persistence S → Persistence (List Action × S)
logged p = record {
  create_run = λ request s. with_log s.0 (p.create_run request s.1);
  get_run = λ run s. p.get_run run s.1;
  list_runs = λ filter s. p.list_runs filter s.1;
  set_status = λ run revision status text s.
      with_log (status_call run revision status ∷ s.0) (p.set_status run revision status text s.1);
  create_task = λ request s. with_log (create_call request ∷ s.0) (p.create_task request s.1);
  get_task = λ id s. p.get_task id s.1;
  list_tasks = λ run s. p.list_tasks run s.1;
  cancel_task = λ id reason s. with_log s.0 (p.cancel_task id reason s.1);
  restart_task = λ id at s. with_log s.0 (p.restart_task id at s.1);
  restart_subgraph = λ request s. with_log s.0 (p.restart_subgraph request s.1);
  release_task = λ id input at s. with_log (release_call id ∷ s.0) (p.release_task id input at s.1);
}
