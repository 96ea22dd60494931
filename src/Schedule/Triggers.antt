-- ===== src/Schedule/Triggers.antt =====
-- schedule/schedule.go: the triggers and the tests of activity that Task and Pipeline make.
use Prim.Native.String.{String}
use ody.Base.{
  Option, List, String, none, ◌∷◌, Bool, some, [], false, pos, ◌==◌, true, ◌&&◌, ◌||◌, string_eq,
  int_eq,
}
use ody.Task.{Specification}
use ody.Task.Enqueue.{enqueue, with_idempotency_key}
use ody.Pipeline.{Registry}
use ody.Pipeline
use ody.Engine.{Persistence}
use ody.Engine.Advance.{run_pipeline, unfinished}
use ody.Execution.{
  Uuid, Time, Error, Result, ok, err, Execution, CreateExecution, PipelineRun, ListFilter, Status,
  pending, retry, running,
}

abbrev failure_of {ℓ} : {A : Type ℓ} → Result A → Option Error
failure_of (ok a) = none
failure_of (err e) = some e

module _ {S : Type 0} (create : CreateExecution → S → Result Execution × S)
    (list : ListFilter → S → Result (List Execution)) where
  unfoldable pub task_trigger :
      Specification → (Time → Result String) → Time → String → S → Option Error × S
  unfolding enqueue
  task_trigger spec input at key s =
      let (r, s') = enqueue create spec (input at) (with_idempotency_key key ∷ []) s in
      (failure_of r, s')

  -- The loop over the statuses: the first that lists an execution, or fails, ends it.
  unfoldable pub task_is_active : Specification → List Status → S → Result Bool
  task_is_active spec [] s = ok false
  task_is_active spec (status ∷ rest) s =
      let later = task_is_active spec rest s in
      elim (list
        (record {
          task_name = spec.name;
          status = some status;
          pipeline_run_id = none;
          limit = pos 1;
          before = none;
        })
        s) [ err e ↦ err e | ok [] ↦ later | ok (item ∷ items) ↦ ok true ]

  abbrev pub active_statuses : List Status
  active_statuses = pending ∷ retry ∷ running ∷ []

module _ {S : Type 0} (p : Persistence S) (uuid_text : Uuid → String) (registry : Registry) where
  unfoldable pub pipeline_trigger :
      Pipeline.Definition → (Time → Result String) → Time → String → S → Option Error × S
  unfolding run_pipeline
  pipeline_trigger definition input at key s =
      let (r, s') = run_pipeline p uuid_text registry definition (input at) key s in
      (failure_of r, s')

  unfoldable pub runs_of : Pipeline.Definition → List PipelineRun → Bool
  runs_of definition [] = false
  runs_of definition (run ∷ rest) =
      (run.pipeline_name == definition.name && run.pipeline_version == definition.version)
      || runs_of definition rest

  unfoldable pub pipeline_is_active : Pipeline.Definition → S → Result Bool
  unfolding runs_of
  pipeline_is_active definition s = elim (p.list_runs unfinished s) [
    | err e ↦ err e
    | ok runs ↦ ok (runs_of definition runs)
  ]
