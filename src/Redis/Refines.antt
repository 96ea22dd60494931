-- ===== src/Redis/Refines.antt =====
-- The transactions of the Redis store (execution/redis/store.go) against MemoryStore
-- (execution/memory.go): on the record that both read, they decide the same and write the same.
use ody.Memory.Lease.{if_owned}
use ody.Base.{
  String, lookup, ◌≡◌, some, nat_eq, if◌then◌else◌, not, ◌==◌, ◌||◌, refl, List, Bool,
  lookup-insert_self, Bool-cases, inl, inr, ap, add_duration, leb,
}
use ody.Execution.{
  Execution, Uuid, Duration, Time, Result, ok, err, running, Status, nil_uuid, lease_lost,
  status_eq, is_terminal, blocked, event_failed, retried, pending,
}
use ody.Redis.{exists, Codec, Plan, abort, skip, send, Command}
use ody.Redis.Transition.{transition, saving, save_transition, Saved, encode_event}
use ody.Redis.Transition
use ody.Redis.Operations
use ody.Memory.{MemoryStore, now, owned, commit, put_execution, append_event, after_now}
use ody.Memory.Lease
use ody.Memory.Control

-- `json.Marshal` of this execution gives a text. It fails on some: on an input or output that is not
-- JSON, or a time past the year 9999.
abbrev pub Encodes : Codec → Execution → Type 0
Encodes codec item = (text : String) × (codec.execution_json item ≡ ok text)

-- So it does of the execution and of the event that a transition writes.
pub record Saves (codec : Codec) (event_id : Uuid) (at : Time) (saved : Saved) : Type 0 where
  pub execution : Encodes codec saved.item
  pub event :
      (text : String) × (encode_event codec event_id saved.item saved.kind saved.error_text at
        ≡ ok text)

-- The operations on one execution that both stores have.
pub data Call : Type 0 where
  call_heartbeat : Uuid → Duration → Call
  call_succeed : Uuid → String → Call
  call_retry : Uuid → String → Duration → Call
  call_fail : Uuid → String → Call
  call_cancel : String → Call
  call_release : String → Time → Call

-- What a call would write over a record can be encoded.
abbrev pub CanEncode : Codec → Uuid → Call → Time → Execution → Type 0
CanEncode codec event_id (call_heartbeat token lease) at item =
    Encodes codec (record item { lease_until = add_duration at lease })
CanEncode codec event_id (call_succeed token output) at item =
    Saves codec event_id at (Operations.succeeding output item at)
CanEncode codec event_id (call_retry token text delay) at item =
    Saves codec event_id at (Operations.retrying text delay item at)
CanEncode codec event_id (call_fail token text) at item =
    Saves codec event_id at (Operations.failing text item at)
CanEncode codec event_id (call_cancel reason) at item =
    Saves codec event_id at (Operations.cancelling reason item at)
CanEncode codec event_id (call_release input available_at) at item = Encodes codec (record item {
  status = pending;
  input = input;
  available_at = Operations.start_time available_at at;
})

abbrev pub redis_plan : Codec → Uuid → Call → Time → Execution → Plan Execution
redis_plan codec event_id (call_heartbeat token lease) = Transition.heartbeat codec token lease
redis_plan codec event_id (call_succeed token output) =
    transition codec event_id token (Operations.succeeding output)
redis_plan codec event_id (call_retry token text delay) =
    transition codec event_id token (Operations.retrying text delay)
redis_plan codec event_id (call_fail token text) =
    transition codec event_id token (Operations.failing text)
redis_plan codec event_id (call_cancel reason) = Operations.cancel_execution codec event_id reason
redis_plan codec event_id (call_release input at) = Operations.release_execution codec input at

abbrev pub memory_step : Uuid → Call → MemoryStore → Result (Unit {0}) × MemoryStore
memory_step id (call_heartbeat token lease) = Lease.heartbeat id token lease
memory_step id (call_succeed token output) = Lease.succeed id token output
memory_step id (call_retry token text delay) = Lease.retry_execution id token text delay
memory_step id (call_fail token text) = Lease.fail id token text
memory_step id (call_cancel reason) = Control.cancel_execution id reason
memory_step id (call_release input at) = Control.release_execution id input at

-- The step of MemoryStore is what the transaction plans: the same error and the store as it was, or no
-- error and the record that is sent.
abbrev pub Agrees : Plan Execution → Uuid → MemoryStore → Result (Unit {0}) × MemoryStore → Type 0
Agrees (abort e) id s r = r ≡ (err e, s)
Agrees skip id s r = ⊥
Agrees (exists other) id s r = ⊥
Agrees (send item commands) id s r = (r.0 ≡ ok tt) × (lookup id r.1.executions ≡ some item)

abbrev Sends : Execution → Plan Execution → Type 0
Sends item (abort e) = ⊥
Sends item skip = ⊥
Sends item (exists id) = ⊥
Sends item (send sent commands) = sent ≡ item

Sends-of :
    {item : Execution} (p : Plan Execution)
    → Sends item p
    → (commands : List Command) × (p ≡ send item commands)
Sends-of (abort e) h = elim h [ ]
Sends-of skip h = elim h [ ]
Sends-of (exists id) h = elim h [ ]
Sends-of (send sent commands) h = (commands, ap (λ x. send x commands) h)

module _ (codec : Codec) where
  -- With records that can be encoded, saveTransition sends the record.
  saving-Sends :
      (event_id : Uuid) (status : Status) (at : Time) (saved : Saved)
      → Saves codec event_id at saved
      → Sends saved.item (saving codec event_id status at saved)
  unfolding saving save_transition
  saving-Sends event_id status at saved t =
      let (text, e) = t.execution in let (event, f) = t.event in rw (e, f, saving) refl

  pub saving-sends :
      (event_id : Uuid) (status : Status) (at : Time) (saved : Saved)
      → Saves codec event_id at saved
      → (commands : List Command) × (saving codec event_id status at saved
          ≡ send saved.item commands)
  saving-sends event_id status at saved t =
      Sends-of (saving codec event_id status at saved) (saving-Sends event_id status at saved t)

  module _ (event_id id : Uuid) (s : MemoryStore) (item : Execution)
      (found : lookup id s.executions ≡ some item) where
    abbrev lost : Uuid → Bool
    lost token =
        not (item.status == running) || token == nil_uuid || not (item.lease_token == token)

    owned-lost :
        (token : Uuid) → owned s id token ≡ (if lost token then err lease_lost else ok item)
    unfolding owned
    owned-lost token = rw found refl

    saving-Agrees :
        (status : Status) (at : Time) (saved : Saved) (s' : MemoryStore) (text : String)
        → Saves codec event_id at saved
        → Agrees
            (saving codec event_id status at saved)
            id
            s
            (ok tt, commit s' id saved.item saved.kind text)
    unfolding commit put_execution append_event
    saving-Agrees status at saved s' text t =
        rw ((saving-sends event_id status at saved t).1)
          (refl, lookup-insert_self id saved.item s'.executions)

    transition-Agrees :
        (token : Uuid) (mutate : Execution → Time → Saved)
        → Saves codec event_id (now s) (mutate item (now s))
        → Agrees (transition codec event_id token mutate (now s) item) id s (
            if_owned
              (owned s id token)
              (λ x.
                commit
                  (after_now s)
                  id
                  (mutate x (now s)).item
                  (mutate x (now s)).kind
                  (mutate x (now s)).error_text)
              s)
    unfolding transition
    transition-Agrees token mutate t = elim (Bool-cases (lost token)) [
      | inl y ↦ rw (owned-lost token, y, transition) refl
      | inr n ↦
          rw (owned-lost token, n, transition)
            (saving-Agrees item.status (now s) (mutate item (now s)) (after_now s)
              (mutate item (now s)).error_text t)
    ]

    -- The two ways in which Retry ends.
    retry_commits :
        (text : String) (delay : Duration)
        → (if leb item.max_attempts item.attempt
            then commit (after_now s) id (Lease.give_up text (now s) item) event_failed text
            else commit (after_now s) id (Lease.postpone text (now s) delay item) retried text)
          ≡ commit
              (after_now s)
              id
              (Operations.retrying text delay item (now s)).item
              (Operations.retrying text delay item (now s)).kind
              text
    unfolding Operations.retrying Lease.give_up Lease.postpone
    retry_commits text delay = elim (Bool-cases (leb item.max_attempts item.attempt)) [
      | inl y ↦ rw y refl
      | inr n ↦ rw n refl
    ]

    -- Heartbeat, Succeed, Retry, Fail, CancelExecution and ReleaseExecution of the two stores agree on an
    -- execution that both hold, at the same time: the same error, or the same record afterwards. What is
    -- assumed is that the record and the event which this call would write can be encoded.
    pub redis_plan-Agrees :
        (call : Call)
        → CanEncode codec event_id call (now s) item
        → Agrees (redis_plan codec event_id call (now s) item) id s (memory_step id call s)
    unfolding transition Lease.retry_execution Lease.postpone Operations.succeeding Lease.succeed
        Lease.complete Operations.failing Lease.fail Lease.give_up Lease.heartbeat put_execution
        Transition.heartbeat Control.cancel_execution Control.cancel Operations.cancelling
        Operations.cancel_execution Control.release_execution Control.release
        Operations.release_execution Operations.release_commands
    redis_plan-Agrees (call_heartbeat token lease) t = elim (Bool-cases (lost token)) [
      | inl y ↦ rw (owned-lost token, y, Transition.heartbeat) refl
      | inr n ↦
          (let (text, e) = t in
            rw (owned-lost token, n, e, Transition.heartbeat)
              (refl, lookup-insert_self id _ s.executions))
    ]
    redis_plan-Agrees (call_succeed token output) t =
        transition-Agrees token (Operations.succeeding output) t
    redis_plan-Agrees (call_retry token text delay) t = elim (Bool-cases (lost token)) [
      | inl y ↦ rw (owned-lost token, y, transition) refl
      | inr n ↦
          rw (owned-lost token, n, retry_commits text delay, transition)
            (saving-Agrees item.status (now s) (Operations.retrying text delay item (now s))
              (after_now s) text t)
    ]
    redis_plan-Agrees (call_fail token text) t = transition-Agrees token (Operations.failing text) t
    redis_plan-Agrees (call_cancel reason) t = elim (Bool-cases (is_terminal item.status)) [
      | inl y ↦ rw (found, y, Control.cancel_execution, Operations.cancel_execution) refl
      | inr n ↦
          rw (found, n, Control.cancel_execution, Operations.cancel_execution)
            (saving-Agrees item.status (now s) (Operations.cancelling reason item (now s))
              (after_now s) reason t)
    ]
    redis_plan-Agrees (call_release input at) t = elim (Bool-cases (item.status == blocked)) [
      | inr n ↦ rw (found, n, Control.release_execution, Operations.release_execution) refl
      | inl y ↦
          (let (text, e) = t in
            rw
              (
                found, y, e, Control.release_execution, Operations.release_execution,
                Operations.release_commands,
              )
              (refl, lookup-insert_self id _ (Control.after_start at s).executions))
    ]
