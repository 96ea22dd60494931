-- ===== src/Memory/Lease.antt =====
-- execution/memory.go: ReapExpired and the methods of a lease's holder, Heartbeat, Succeed, Retry
-- and Fail.
use ody.Base.{
  String, Bool, ◌||◌, not, Option, none, some, List, [], ◌∷◌, ◌==◌, ltb, leb, if◌then◌else◌,
  for_range, contains, nat_eq, add_duration,
}
use ody.Execution.{
  Uuid, Time, Duration, running, retry, succeeded, failed, status_eq, Execution, retried,
  event_succeeded, event_failed, Result, ok, err,
}
use ody.Memory.{MemoryStore, now, after_now, put_execution, commit, clear_lease, owned}

-- An expired delivery with no attempt left.
unfoldable pub is_exhausted : Time → Execution → Bool
is_exhausted at item =
    not (
      not (item.status == running) || ltb at item.lease_until || ltb item.attempt item.max_attempts)

abbrev pub reap_text : String
reap_text = "lease expired after maximum attempts"

unfoldable pub reap : Time → Execution → Execution
reap at item =
    clear_lease (record item { status = failed; last_error = reap_text; finished_at = some at })

-- `runs[*item.PipelineRunID] = struct{}{}`
unfoldable pub note_run : Option Uuid → List Uuid → List Uuid
note_run none runs = runs
note_run (some run) runs = if contains runs run then runs else run ∷ runs

-- One turn of the loop over the executions.
unfoldable pub reap_one :
    Time → Uuid → Execution → List Uuid × MemoryStore → List Uuid × MemoryStore
unfolding is_exhausted reap note_run commit
reap_one at id item (runs, s) =
    if is_exhausted at item
    then (note_run item.pipeline_run_id runs, commit s id (reap at item) event_failed reap_text)
    else (runs, s)

unfoldable pub reap_expired : MemoryStore → List Uuid × MemoryStore
unfolding reap_one for_range
reap_expired s = for_range (reap_one (now s)) s.executions ([], after_now s)

abbrev pub if_owned :
    Result Execution → (Execution → MemoryStore) → MemoryStore → Result (Unit {0}) × MemoryStore
if_owned (err e) k s = (err e, s)
if_owned (ok item) k s = (ok tt, k item)

unfoldable pub heartbeat : Uuid → Uuid → Duration → MemoryStore → Result (Unit {0}) × MemoryStore
unfolding owned put_execution
heartbeat id token lease s =
    if_owned (owned s id token)
      (λ item.
        put_execution (after_now s) id (record item { lease_until = add_duration (now s) lease }))
      s

unfoldable pub complete : String → Time → Execution → Execution
complete output at item =
    clear_lease (record item { status = succeeded; output = output; finished_at = some at })

unfoldable pub succeed : Uuid → Uuid → String → MemoryStore → Result (Unit {0}) × MemoryStore
unfolding owned complete commit
succeed id token output s =
    if_owned (owned s id token)
      (λ item. commit (after_now s) id (complete output (now s) item) event_succeeded "") s

unfoldable pub give_up : String → Time → Execution → Execution
give_up error_text at item =
    clear_lease (record item { status = failed; last_error = error_text; finished_at = some at })

unfoldable pub postpone : String → Time → Duration → Execution → Execution
postpone error_text at delay item =
    clear_lease (record item {
      status = retry;
      last_error = error_text;
      available_at = add_duration at delay;
    })

unfoldable pub retry_execution :
    Uuid → Uuid → String → Duration → MemoryStore → Result (Unit {0}) × MemoryStore
unfolding owned give_up postpone commit
retry_execution id token error_text delay s =
    if_owned (owned s id token)
      (λ item.
        if leb item.max_attempts item.attempt
        then commit (after_now s) id (give_up error_text (now s) item) event_failed error_text
        else commit (after_now s) id (postpone error_text (now s) delay item) retried error_text)
      s

unfoldable pub fail : Uuid → Uuid → String → MemoryStore → Result (Unit {0}) × MemoryStore
unfolding owned give_up commit
fail id token error_text s =
    if_owned (owned s id token)
      (λ item. commit (after_now s) id (give_up error_text (now s) item) event_failed error_text) s
