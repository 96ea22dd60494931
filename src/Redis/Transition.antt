-- ===== src/Redis/Transition.antt =====
-- execution/redis/store.go: the transactions on one execution. Each is a function of the record that was
-- read under WATCH, of the server's time, and of the results of `uuid.New`.
use ody.Execution.{
  ◌>>=◌, Execution, Uuid, Time, nil_uuid, Status, EventType, Duration, err, status_text, Result, ok,
  running, lease_lost, status_eq, task_key_eq,
}
use Prim.Native.String
use ody.Redis.{
  Codec, Command, Plan, abort, send, set, hincr_by, zadd, zrem, rpush, leases_key,
  execution_counts_key, status_key, queue_key, execution_key, events_key,
}
use ody.Redis.Encoding.{score}
use ody.Base.{
  negsuc, ◌∷◌, [], String, List, Bool, if◌then◌else◌, ◌==◌, not, pos, ◌||◌, add_duration, ◌++◌,
  nat_eq,
}

abbrev pub clear_lease : Execution → Execution
clear_lease item = record item { lease_owner = ""; lease_token = nil_uuid; lease_until = 0 }

-- `countField`
abbrev pub count_field : String → Status → String
count_field name status = String.◌++◌ name (String.◌++◌ "\0" (status_text status))

-- A record to be written, with its event, and whether the execution stays in its queue.
pub record Saved : Type 0 where
  pub item : Execution
  pub kind : EventType
  pub error_text : String
  pub keep_in_queue : Bool

module _ (codec : Codec) where
  abbrev pub encode_event : Uuid → Execution → EventType → String → Time → Result String
  encode_event event_id item kind error_text at = codec.event_json (record {
    id = event_id;
    execution_id = item.id;
    kind = kind;
    attempt = item.attempt;
    error = error_text;
    created_at = at;
  })

  -- The counters of both statuses.
  abbrev pub move_count : Execution → Status → List Command
  move_count item previous =
      hincr_by (execution_counts_key codec) (count_field item.task_name previous) (negsuc 0)
      ∷ hincr_by (execution_counts_key codec) (count_field item.task_name item.status) (pos 1)
      ∷ []

  -- The indexes of both statuses.
  abbrev pub move_status : Execution → Status → List Command
  move_status item previous =
      zrem (status_key codec previous) (codec.uuid_text item.id)
      ∷ zadd (status_key codec item.status) (score item.created_at) (codec.uuid_text item.id)
      ∷ []

  -- The queue and the deadlines of the leases.
  unfoldable pub move_queue : Execution → Bool → List Command
  unfolding score
  move_queue item keep_in_queue =
      let member = codec.uuid_text item.id in
      if keep_in_queue
      then if item.status == running
        then zadd (leases_key codec) (score item.lease_until) member
          ∷ zadd (queue_key codec item.task_name) (score item.lease_until) member
          ∷ []
        else zadd (queue_key codec item.task_name) (score item.available_at) member ∷ []
      else zrem (queue_key codec item.task_name) member ∷ []

  unfoldable pub save_transition :
      Uuid → Execution → Status → EventType → String → Time → Bool → Result (List Command)
  unfolding move_queue score
  save_transition event_id item previous kind error_text at keep_in_queue = do
    encoded ← codec.execution_json item
    event ← encode_event event_id item kind error_text at
    ok (
        set (execution_key codec item.id) encoded
        ∷ ((if not (previous == item.status) then move_count item previous else [])
            ++ (move_status item previous
                ++ (zrem (leases_key codec) (codec.uuid_text item.id)
                    ∷ (move_queue item keep_in_queue
                        ++ (rpush (events_key codec item.id) event ∷ []))))))

  -- The transaction of a call that returns what saveTransition returns.
  unfoldable pub saving : Uuid → Status → Time → Saved → Plan Execution
  unfolding save_transition
  saving event_id previous at saved =
      elim (save_transition event_id saved.item previous saved.kind saved.error_text at
        saved.keep_in_queue) [ err e ↦ abort e | ok commands ↦ send saved.item commands ]

  unfoldable pub transition :
      Uuid → Uuid → (Execution → Time → Saved) → Time → Execution → Plan Execution
  unfolding saving
  transition event_id token mutate at item =
      if not (item.status == running) || token == nil_uuid || not (item.lease_token == token)
      then abort lease_lost
      else saving event_id item.status at (mutate item at)

  unfoldable pub heartbeat : Uuid → Duration → Time → Execution → Plan Execution
  unfolding score
  heartbeat token lease at item =
      if not (item.status == running) || token == nil_uuid || not (item.lease_token == token)
      then abort lease_lost
      else (let item = record item { lease_until = add_duration at lease } in
          elim (codec.execution_json item) [
            | err e ↦ abort e
            | ok encoded ↦ send item (
                set (execution_key codec item.id) encoded
                ∷ zadd (queue_key codec item.task_name) (score item.lease_until)
                    (codec.uuid_text item.id)
                ∷ zadd (leases_key codec) (score item.lease_until) (codec.uuid_text item.id)
                ∷ [])
          ])
