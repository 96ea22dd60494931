-- ===== src/Redis/Runs.antt =====
-- execution/redis/pipelines.go: the records and transactions of CreatePipelineRun and
-- SetPipelineRunStatus, and the agreement of the latter with MemoryStore (execution/memory.go).
use ody.Execution.{
  CreatePipelineRun, RunStatus, PipelineRun, Result, Uuid, run_status_text, Time, run_pending, err,
  is_terminal_run, ok, conflict, run_status_eq,
}
use ody.Base.{
  String, ℕ, List, lookup, if◌then◌else◌, ◌∷◌, negsuc, ◌≡◌, none, pos, not, some, ◌==◌, [], true,
  nat_eq, ◌++◌, ◌⊎◌, string_eq, inl, inr, Bool-cases, lookup-insert_self, ◌∙◌, ap, refl,
}
use Prim.Native.String
use ody.Redis.{
  Codec, Command, hset, hincr_by, zadd, zrem, set, pipeline_key, pipeline_counts_key, runs_key,
  run_status_key, pipeline_idempotency_key,
}
use ody.Redis.Encoding.{encode_run, score}
use ody.Memory.{MemoryStore, now}
use ody.Memory.Runs
use ody.Memory.Control.{next_revision}

abbrev pub run_count_field : String → RunStatus → String
run_count_field name status = String.◌++◌ name (String.◌++◌ "\0" (run_status_text status))

unfoldable pub new_run : CreatePipelineRun → Uuid → Time → PipelineRun
new_run request id at = record {
  id = id;
  pipeline_name = request.pipeline_name;
  pipeline_version = request.pipeline_version;
  input = request.input;
  status = run_pending;
  error = "";
  idempotency_key = request.idempotency_key;
  revision = 0;
  created_at = at;
  updated_at = at;
  finished_at = none;
}

unfoldable pub move_run : RunStatus → String → Time → PipelineRun → PipelineRun
move_run status error_text at run = record run {
  status = status;
  error = error_text;
  updated_at = at;
  revision = next_revision run.revision;
  finished_at = if is_terminal_run status then some at else none;
}

module _ (codec : Codec) where
  unfoldable pub create_run_commands : PipelineRun → List Command
  unfolding score encode_run
  create_run_commands run =
      let member = codec.uuid_text run.id in
      hset (pipeline_key codec run.id) (encode_run codec run)
      ∷ hincr_by (pipeline_counts_key codec) (run_count_field run.pipeline_name run.status) (pos 1)
      ∷ zadd (runs_key codec) (score run.created_at) member
      ∷ zadd (run_status_key codec run.status) (score run.created_at) member
      ∷ (if run.idempotency_key == ""
          then []
          else set (pipeline_idempotency_key codec run.pipeline_name run.idempotency_key) member
            ∷ [])

  -- The counters of both statuses.
  abbrev pub move_run_count : PipelineRun → RunStatus → List Command
  move_run_count run previous =
      hincr_by (pipeline_counts_key codec) (run_count_field run.pipeline_name previous) (negsuc 0)
      ∷ hincr_by (pipeline_counts_key codec) (run_count_field run.pipeline_name run.status) (pos 1)
      ∷ []

  -- The commands that write a run whose status has changed.
  unfoldable pub save_run : PipelineRun → RunStatus → List Command
  unfolding score encode_run
  save_run run previous =
      let member = codec.uuid_text run.id in
      hset (pipeline_key codec run.id) (encode_run codec run)
      ∷ ((if not (previous == run.status) then move_run_count run previous else [])
          ++ (zrem (run_status_key codec previous) member
              ∷ zadd (run_status_key codec run.status) (score run.created_at) member
              ∷ []))

  -- The record that is written and its transaction, on the run that was read.
  unfoldable pub set_run_status :
      ℕ → RunStatus → String → Time → PipelineRun → Result (PipelineRun × List Command)
  unfolding move_run save_run
  set_run_status expected status error_text at run =
      if not (run.revision == expected)
      then err conflict
      else (let moved = move_run status error_text at run in ok (moved, save_run moved run.status))

-- MemoryStore returns the same error and stays as it was, or holds the run that is sent.
abbrev pub RunAgrees :
    Result (PipelineRun × List Command)
    → Uuid
    → MemoryStore
    → Result (Unit {0}) × MemoryStore
    → Type 0
RunAgrees (err e) id s r = r ≡ (err e, s)
RunAgrees (ok (run, commands)) id s r = (r.0 ≡ ok tt) × (lookup id r.1.runs ≡ some run)

-- SetPipelineRunStatus of the two stores agree on a run that both hold, at the same time: a conflict of
-- revisions, or the same run afterwards. This holds where the new status ends the run or the run has
-- no end yet; otherwise the Redis store clears the end of the run and MemoryStore keeps it.
pub set_run_status-RunAgrees :
    (codec : Codec) (id : Uuid) (expected : ℕ) (status : RunStatus) (text : String)
    (s : MemoryStore) (run : PipelineRun)
    → lookup id s.runs ≡ some run
    → (is_terminal_run status ≡ true) ⊎ (run.finished_at ≡ none)
    → RunAgrees
        (set_run_status codec expected status text (now s) run)
        id
        s
        (Runs.set_pipeline_run_status id expected status text s)
unfolding set_run_status Runs.set_pipeline_run_status move_run Runs.move_run
set_run_status-RunAgrees codec id expected status text s run found h =
    elim (Bool-cases (run.revision == expected)) [
      | inr n ↦ rw (found, n, set_run_status, Runs.set_pipeline_run_status) refl
      | inl y ↦
          rw (found, y, set_run_status, Runs.set_pipeline_run_status)
            (refl, lookup-insert_self id _ s.runs ∙ ap some (same h))
    ]
  where
    same :
        (is_terminal_run status ≡ true) ⊎ (run.finished_at ≡ none)
        → Runs.move_run status text (now s) run ≡ move_run status text (now s) run
    same (inl t) = rw t refl
    same (inr n) = rw n refl
