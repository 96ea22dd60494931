-- ===== src/Redis/RunUpdated.antt =====
-- The revision that SetPipelineRunStatus (execution/redis/pipelines.go) expects.
use ody.Redis.Encoding.{StoredRun, encode_stored}
use ody.Base.{ℕ, String, ◌≡◌, ◌∷◌, [], nat_eq, ◌+◌, ◌%◌, ◌^◌, ◌⊎◌, some, none, Member}
use ody.Execution.{
  Uuid, RunStatus, Time, ok, run_succeeded, run_status_text, run_failed, run_cancelled, run_pending,
  run_running,
}
use ody.Redis.{Server, Codec, pipeline_key, committed, hset}
use ody.Redis.RunUpdate.{save_stored, read_run}

module _ {R : Type 0} (server : Server R) (codec : Codec) (id : Uuid) (expected : ℕ)
    (status : RunStatus) (text : String) where
  -- A change of status that was committed, and the run that it read.
  pub record IsExpected (moved : StoredRun) (after : R) : Type 0 where
    pub at : Time
    pub state : R
    pub run : StoredRun
    pub read : read_run codec server id state ≡ ok run
    pub revision : run.revision ≡ expected
    pub is_next : moved.revision ≡ (run.revision + 1) % 2 ^ 64
    pub has_status : moved.status ≡ run_status_text status
    pub has_error : moved.error ≡ text
    pub is_updated : moved.updated_at ≡ at
    pub is_finished :
        (((status ≡ run_succeeded) ⊎ ((status ≡ run_failed) ⊎ (status ≡ run_cancelled)))
          × (moved.finished_at ≡ some at))
        ⊎ (((status ≡ run_pending) ⊎ (status ≡ run_running)) × (moved.finished_at ≡ none))
    pub keeps_identity :
        (moved.id ≡ run.id)
        × (moved.pipeline_name ≡ run.pipeline_name)
        × (moved.pipeline_version ≡ run.pipeline_version)
        × (moved.idempotency_key ≡ run.idempotency_key)
    pub keeps_input : (moved.input ≡ run.input) × (moved.created_at ≡ run.created_at)
    pub is_stored :
        Member
          (hset (pipeline_key codec id) (encode_stored codec moved))
          (save_stored codec id moved run.status)
    pub executed :
        server.exec (pipeline_key codec id ∷ []) (save_stored codec id moved run.status) state
        ≡ (committed, after)
