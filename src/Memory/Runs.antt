-- ===== src/Memory/Runs.antt =====
-- execution/memory.go: CreatePipelineRun, GetPipelineRun and SetPipelineRunStatus.
use ody.Base.{
  ℕ, String, not, Option, none, some, ◌==◌, nat_eq, string_eq, if◌then◌else◌, lookup, insert,
  find_or,
}
use ody.Execution.{
  Uuid, Time, RunStatus, run_pending, PipelineRun, CreatePipelineRun, is_terminal_run, Result, ok,
  err, not_found, conflict,
}
use ody.Memory.{MemoryStore, now, after_now, new_uuid, after_uuid, zero_run, idempotency_index}
use ody.Memory.Control.{next_revision}
use ody.Memory.Create.{remember}

unfoldable pub known_run : MemoryStore → CreatePipelineRun → Option Uuid
known_run s request =
    if request.idempotency_key == ""
    then none
    else lookup (idempotency_index request.pipeline_name request.idempotency_key) s.run_idempotent

unfoldable pub new_run : CreatePipelineRun → Uuid → Time → PipelineRun
new_run request id at = record {
  id = id;
  pipeline_name = request.pipeline_name;
  pipeline_version = request.pipeline_version;
  input = request.input;
  status = run_pending;
  error = "";
  idempotency_key = request.idempotency_key;
  revision = 0;
  created_at = at;
  updated_at = at;
  finished_at = none;
}

unfoldable pub create_pipeline_run :
    CreatePipelineRun → MemoryStore → Result PipelineRun × MemoryStore
unfolding known_run new_run
create_pipeline_run request s = elim (known_run s request) [
  | some id ↦ (ok (find_or zero_run id s.runs), s)
  | none ↦
      (let run = new_run request (new_uuid s) (now s) in
        (
          ok run,
          record (after_uuid (after_now s)) {
            runs = insert run.id run s.runs;
            run_idempotent =
                remember request.idempotency_key
                  (idempotency_index request.pipeline_name request.idempotency_key) run.id
                  s.run_idempotent;
          },
        ))
]

unfoldable pub get_pipeline_run : Uuid → MemoryStore → Result PipelineRun
get_pipeline_run id s = elim (lookup id s.runs) [ none ↦ err not_found | some run ↦ ok run ]

unfoldable pub move_run : RunStatus → String → Time → PipelineRun → PipelineRun
move_run status error_text at run = record run {
  status = status;
  error = error_text;
  updated_at = at;
  revision = next_revision run.revision;
  finished_at = if is_terminal_run status then some at else run.finished_at;
}

-- `expected` is the revision that the caller has read.
unfoldable pub set_pipeline_run_status :
    Uuid → ℕ → RunStatus → String → MemoryStore → Result (Unit {0}) × MemoryStore
unfolding move_run is_terminal_run
set_pipeline_run_status id expected status error_text s = elim (lookup id s.runs) [
  | none ↦ (err not_found, s)
  | some run ↦ if not (run.revision == expected) then (err conflict, s) else (
    ok tt,
    record (after_now s) { runs = insert id (move_run status error_text (now s) run) s.runs },
  )
]
