-- ===== src/Redis/Operations.antt =====
-- execution/redis/store.go: Claim and ReapExpired on one candidate, the mutations of Succeed, Retry and
-- Fail, and CancelExecution, RestartExecution and ReleaseExecution.
use ody.Execution.{
  retry, is_active, Execution, Uuid, is_terminal, Time, Status, Duration, succeeded, failed,
  cancelled, TaskKey, pending, err, ok, running, not_found, active, event_succeeded, event_failed,
  event_cancelled, restarted, blocked, pipeline_execution, status_eq, retried, started, task_key_eq,
}
use ody.Redis.{
  Codec, Plan, abort, skip, send, set, zadd, zrem, rpush, leases_key, queue_key, execution_key,
  events_key,
}
use ody.Redis.Encoding.{score}
use ody.Base.{
  ◌∷◌, [], String, List, Bool, if◌then◌else◌, ◌==◌, not, some, leb, none, ◌||◌, contains, ltb,
  is_some, false, add_duration, ◌++◌, ◌&&◌, nat_eq, true, suc,
}
use ody.Redis.Transition.{Saved, clear_lease, encode_event, move_count, move_status, saving}

-- The mutations of Succeed, Retry and Fail.
unfoldable pub succeeding : String → Execution → Time → Saved
succeeding output item at = record {
  item = clear_lease (record item { status = succeeded; output = output; finished_at = some at });
  kind = event_succeeded;
  error_text = "";
  keep_in_queue = false;
}

unfoldable pub retrying : String → Duration → Execution → Time → Saved
retrying error_text delay item at =
    if leb item.max_attempts item.attempt
    then record {
      item = record (clear_lease (record item { last_error = error_text })) {
        status = failed;
        finished_at = some at;
      };
      kind = event_failed;
      error_text = error_text;
      keep_in_queue = false;
    }
    else record {
      item = record (clear_lease (record item { last_error = error_text })) {
        status = retry;
        available_at = add_duration at delay;
      };
      kind = retried;
      error_text = error_text;
      keep_in_queue = true;
    }

unfoldable pub failing : String → Execution → Time → Saved
failing error_text item at = record {
  item =
      clear_lease (record item { status = failed; last_error = error_text; finished_at = some at });
  kind = event_failed;
  error_text = error_text;
  keep_in_queue = false;
}

unfoldable pub cancelling : String → Execution → Time → Saved
cancelling reason item at = record {
  item =
      clear_lease (record item { status = cancelled; last_error = reason; finished_at = some at });
  kind = event_cancelled;
  error_text = reason;
  keep_in_queue = false;
}

-- Whether the candidate can be claimed.
unfoldable pub can_claim : List TaskKey → Time → Execution → Bool
can_claim accepted at item = not (
    not (contains accepted (record { name = item.task_name; version = item.task_version }))
    || not (
        item.status == pending
        || item.status == retry
        || (item.status == running && not (ltb at item.lease_until)))
    || ltb at item.available_at
    || leb item.max_attempts item.attempt)

unfoldable pub claiming : String → Uuid → Duration → Execution → Time → Saved
claiming owner token lease item at = record {
  item = record item {
    status = running;
    attempt = suc item.attempt;
    lease_owner = owner;
    lease_token = token;
    lease_until = add_duration at lease;
    started_at = elim item.started_at [ none ↦ some at | some t ↦ some t ];
  };
  kind = started;
  error_text = "";
  keep_in_queue = true;
}

unfoldable pub expiring : Execution → Time → Saved
expiring item at = record {
  item = clear_lease (record item {
    status = failed;
    last_error = "lease expired after maximum attempts";
    finished_at = some at;
  });
  kind = event_failed;
  error_text = "lease expired after maximum attempts";
  keep_in_queue = false;
}

-- `if availableAt.IsZero() { availableAt = now }`
abbrev pub start_time : Time → Time → Time
start_time available_at at = if available_at == 0 then at else available_at

unfoldable pub reset : Time → Execution → Execution
reset available_at item = clear_lease (record item {
  status = pending;
  attempt = 0;
  available_at = available_at;
  output = "";
  last_error = "";
  started_at = none;
  finished_at = none;
})

module _ (codec : Codec) where
  unfoldable pub claim_candidate :
      Uuid → String → Uuid → List TaskKey → Duration → Time → Execution → Plan Execution
  unfolding can_claim claiming saving
  claim_candidate event_id owner token accepted lease at item =
      if can_claim accepted at item
      then saving codec event_id item.status at (claiming owner token lease item at)
      else skip

  unfoldable pub cancel_execution : Uuid → String → Time → Execution → Plan Execution
  unfolding cancelling saving is_terminal
  cancel_execution event_id reason at item =
      if is_terminal item.status
      then abort not_found
      else saving codec event_id item.status at (cancelling reason item at)

  -- `removeLeaseIndex`
  abbrev pub remove_lease_index : Execution → Plan Execution
  remove_lease_index item = send item (zrem (leases_key codec) (codec.uuid_text item.id) ∷ [])

  unfoldable pub reap_candidate : Uuid → Time → Execution → Plan Execution
  unfolding expiring saving
  reap_candidate event_id at item =
      if not (item.status == running)
      then remove_lease_index item
      else if ltb at item.lease_until
      then skip
      else if ltb item.attempt item.max_attempts
      then remove_lease_index item
      else saving codec event_id item.status at (expiring item at)

  unfoldable pub restart_commands : Uuid → Status → Time → Execution → Plan Execution
  unfolding score
  restart_commands event_id previous at item = elim (codec.execution_json item) [
    | err e ↦ abort e
    | ok encoded ↦ elim (encode_event codec event_id item restarted "" at) [
      | err e ↦ abort e
      | ok event ↦ send item (
          set (execution_key codec item.id) encoded
          ∷ (move_count codec item previous
              ++ (move_status codec item previous
                  ++ (zrem (leases_key codec) (codec.uuid_text item.id)
                      ∷ zadd (queue_key codec item.task_name) (score item.available_at)
                          (codec.uuid_text item.id)
                      ∷ rpush (events_key codec item.id) event
                      ∷ []))))
    ]
  ]

  unfoldable pub restart_execution : Uuid → Time → Time → Execution → Plan Execution
  unfolding is_active reset restart_commands
  restart_execution event_id available_at at item =
      if is_active item.status
      then abort active
      else if is_some item.pipeline_run_id
      then abort pipeline_execution
      else restart_commands event_id item.status at (reset (start_time available_at at) item)

  unfoldable pub release_commands : Execution → Plan Execution
  unfolding score
  release_commands item = elim (codec.execution_json item) [
    | err e ↦ abort e
    | ok encoded ↦ send item (
        set (execution_key codec item.id) encoded
        ∷ (move_count codec item blocked
            ++ (move_status codec item blocked
                ++ (zadd (queue_key codec item.task_name) (score item.available_at)
                      (codec.uuid_text item.id)
                    ∷ []))))
  ]

  unfoldable pub release_execution : String → Time → Time → Execution → Plan Execution
  unfolding release_commands
  release_execution input available_at at item =
      if not (item.status == blocked)
      then abort active
      else release_commands (record item {
        status = pending;
        input = input;
        available_at = start_time available_at at;
      })
