-- ===== src/Redis/RunUpdate.antt =====
-- execution/redis/pipelines.go: SetPipelineRunStatus on the run that the server holds, whose status is
-- whatever text its hash has.
use ody.Execution.{
  run_status_text, RunStatus, Uuid, Time, Result, is_terminal_run, err, ok, conflict, not_found,
}
use ody.Base.{
  String, List, ℕ, if◌then◌else◌, negsuc, ◌∷◌, not, some, pos, ◌==◌, none, [], ◌++◌, nat_eq,
  string_eq,
}
use ody.Redis.{
  send, abort, zrem, zadd, hset, hincr_by, Codec, Key, Server, of_run_status, Command,
  pipeline_counts_key, pipeline_key, Plan, Ended,
}
use ody.Memory.Control.{next_revision}
use ody.Redis.Watch.{watch}
use ody.Redis.Encoding.{StoredRun, decode_run, score, encode_stored}
use Prim.Native.String

abbrev pub stored_count_field : String → String → String
stored_count_field name status = String.◌++◌ name (String.◌++◌ "\0" status)

-- `runStatusKey` of any text.
abbrev pub stored_status_key : String → Key
stored_status_key status = record { kind = of_run_status; argument = status }

unfoldable pub change_status : RunStatus → String → Time → StoredRun → StoredRun
unfolding run_status_text
change_status status error_text at run = record run {
  status = run_status_text status;
  error = error_text;
  updated_at = at;
  revision = next_revision run.revision;
  finished_at = if is_terminal_run status then some at else none;
}

module _ (codec : Codec) where
  -- The counters of both statuses.
  abbrev pub move_stored_count : StoredRun → String → List Command
  move_stored_count run previous =
      hincr_by (pipeline_counts_key codec) (stored_count_field run.pipeline_name previous)
        (negsuc 0)
      ∷ hincr_by (pipeline_counts_key codec) (stored_count_field run.pipeline_name run.status)
          (pos 1)
      ∷ []

  -- The commands that write the run under its identifier.
  unfoldable pub save_stored : Uuid → StoredRun → String → List Command
  unfolding score encode_stored
  save_stored id run previous =
      let member = codec.uuid_text id in
      hset (pipeline_key codec id) (encode_stored codec run)
      ∷ ((if not (previous == run.status) then move_stored_count run previous else [])
          ++ (zrem (stored_status_key previous) member
              ∷ zadd (stored_status_key run.status) (score run.created_at) member
              ∷ []))

  -- The plan on the run that was read.
  unfoldable pub plan_status : Uuid → ℕ → RunStatus → String → Time → StoredRun → Plan StoredRun
  unfolding change_status save_stored
  plan_status id expected status error_text at run =
      if not (run.revision == expected)
      then abort conflict
      else (let moved = change_status status error_text at run in
          send moved (save_stored id moved run.status))

  module _ {R : Type 0} (server : Server R) where
    -- HGETALL and decodeRun within a transaction.
    unfoldable pub read_run : Uuid → R → Result StoredRun
    unfolding decode_run
    read_run id s = elim (server.hgetall (pipeline_key codec id) s) [
      | err e ↦ err e
      | ok [] ↦ err not_found
      | ok (field ∷ fields) ↦ decode_run codec (field ∷ fields)
    ]

    unfoldable pub status_try : Uuid → ℕ → RunStatus → String → Time → R → Plan StoredRun
    unfolding read_run plan_status
    status_try id expected status error_text at s = elim (read_run id s) [
      | err e ↦ abort e
      | ok run ↦ plan_status id expected status error_text at run
    ]

    -- The end of watch, with the run that was written.
    unfoldable pub set_pipeline_run_status :
        Uuid → ℕ → RunStatus → String → R → Result (Ended StoredRun) × R
    unfolding watch status_try
    set_pipeline_run_status id expected status error_text s = elim (server.time s) [
      | err e ↦ (err e, s)
      | ok at ↦
          watch server (pipeline_key codec id ∷ []) 16
            (λ n. status_try id expected status error_text at) s
    ]
