-- ===== src/Redis/Creation.antt =====
-- execution/redis/store.go: CreateExecution, and execution/redis/pipelines.go: CreatePipelineRun. `id` and
-- `events n` are results of `uuid.New`, the latter of each try.
use ody.Redis.Transition.{encode_event}
use ody.Redis.Encoding.{StoredRun, stored}
use ody.Redis.Watch.{watch}
use ody.Base.{List, ℕ, if◌then◌else◌, Option, ◌==◌, none, some, [], ◌∷◌, string_eq}
use ody.Redis.{
  existing, unavailable, done, send, abort, exists, pipeline_idempotency_key, Server, Codec, Key,
  Plan, Ended,
}
use ody.Redis.Create.{new_record, references, create_commands}
use ody.Redis.Runs.{new_run, create_run_commands}
use ody.Redis.Read.{get_execution, get_pipeline_run}
use ody.Execution.{
  created, Execution, PipelineRun, Uuid, CreateExecution, Result, err, CreatePipelineRun, ok,
  message, wrapped,
}

module _ {R : Type 0} (server : Server R) (codec : Codec) where
  -- The loop over the references, with the first that is set.
  unfoldable pub find_reference : List Key → R → Result (Option Uuid)
  find_reference [] s = ok none
  find_reference (key ∷ keys) s = elim (server.get key s) [
    | err e ↦ err e
    | ok none ↦ find_reference keys s
    | ok (some value) ↦ elim (codec.parse_uuid value) [
      | err e ↦ err (wrapped "invalid redis execution reference" e)
      | ok id ↦ ok (some id)
    ]
  ]

  unfoldable pub create_try : Execution → Uuid → R → Plan Execution
  unfolding find_reference create_commands
  create_try item event_id s = elim (find_reference (references codec item) s) [
    | err e ↦ abort e
    | ok (some id) ↦ exists id
    | ok none ↦ elim (codec.execution_json item) [
      | err e ↦ abort e
      | ok encoded ↦ elim (encode_event codec event_id item created "" item.created_at) [
        | err e ↦ abort e
        | ok event ↦ send item (create_commands codec item encoded event)
      ]
    ]
  ]

  -- What CreateExecution makes of the end of watch.
  unfoldable pub create_result : Result (Ended Execution) → R → Result Execution
  unfolding get_execution
  create_result (err e) s = err e
  create_result (ok unavailable) s = err (message "redis execution is not claimable")
  create_result (ok (existing id)) s = get_execution server codec id s
  create_result (ok (done item)) s = ok item

  unfoldable pub create_execution : CreateExecution → Uuid → (ℕ → Uuid) → R → Result Execution × R
  unfolding watch create_try create_result new_record
  create_execution request id events s =
      if request.task_name == ""
      then (err (message "task name is empty"), s)
      else elim (server.time s) [
        | err e ↦ (err e, s)
        | ok at ↦
            (let item = new_record request id at in
              let (r, s') =
                watch server (references codec item) 16 (λ n. create_try item (events n)) s in
              (create_result r s', s'))
      ]

  -- `watchKeys`
  abbrev pub run_references : PipelineRun → List Key
  run_references run =
      if run.idempotency_key == ""
      then []
      else pipeline_idempotency_key codec run.pipeline_name run.idempotency_key ∷ []

  unfoldable pub find_run_reference : List Key → R → Result (Option Uuid)
  find_run_reference [] s = ok none
  find_run_reference (key ∷ keys) s = elim (server.get key s) [
    | err e ↦ err e
    | ok none ↦ ok none
    | ok (some value) ↦ elim (codec.parse_uuid value) [ err e ↦ err e | ok id ↦ ok (some id) ]
  ]

  unfoldable pub create_run_try : PipelineRun → R → Plan PipelineRun
  unfolding find_run_reference create_run_commands
  create_run_try run s = elim (find_run_reference (run_references run) s) [
    | err e ↦ abort e
    | ok (some id) ↦ exists id
    | ok none ↦ send run (create_run_commands codec run)
  ]

  -- The run as it is stored: the one that was there, or the new one.
  unfoldable pub create_pipeline_run : CreatePipelineRun → Uuid → R → Result StoredRun × R
  unfolding watch create_run_try get_pipeline_run new_run
  create_pipeline_run request id s = elim (server.time s) [
    | err e ↦ (err e, s)
    | ok at ↦
        (let run = new_run request id at in
          let (r, s') = watch server (run_references run) 16 (λ n. create_run_try run) s in
          (
            elim r [
              | err e ↦ err e
              | ok unavailable ↦ err (message "redis execution is not claimable")
              | ok (existing id) ↦ get_pipeline_run server codec id s'
              | ok (done run) ↦ ok (stored run)
            ],
            s',
          ))
  ]
