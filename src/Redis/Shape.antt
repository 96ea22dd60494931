-- ===== src/Redis/Shape.antt =====
-- The transactions of the Redis store on one execution (execution/redis/store.go): what they are made of.
use ody.Redis.Encoding.{score}
use ody.Base.{
  String, Bool-cases, inr, not, leb, inl, ◌==◌, refl, ◌||◌, nat_eq, add_duration, ◌≡◌, Bool, false,
  arith, true, string_eq, ◌∷◌, [], ◌++◌,
}
use ody.Execution.{
  pending, blocked, is_active, blocked, Time, Execution, Uuid, Duration, Result-cases, running,
  nil_uuid, status_eq, status_beq_iff, Error, lease_lost,
}
use ody.Redis.{Codec, Plan, send, abort, skip, set, execution_key, zadd, queue_key, leases_key}
use ody.Redis.Transition.{
  Saved, saving, save_transition, transition, heartbeat, encode_event, move_count, move_status,
}
use ody.Redis.Operations.{retrying, remove_lease_index}
use ody.Redis.Indexed.{IsMove, transaction}

-- What an operation plans: nothing, the removal of a lease index, the transaction of saveTransition, or
-- those of Heartbeat and of ReleaseExecution.
pub data Shape (codec : Codec) (item : Execution) : Plan Execution → Type 0 where
  shape_abort : (e : Error) → Shape codec item (abort e)
  shape_skip : Shape codec item skip
  shape_remove : Shape codec item (remove_lease_index codec item)
  shape_saved :
      (saved : Saved) (encoded event : String)
      → IsMove item saved
      → Shape codec item (
          send saved.item
            (transaction codec saved.item item.status saved.keep_in_queue encoded event))
  shape_heartbeat :
      (at : Time) (encoded : String)
      → item.status ≡ running
      → Shape codec item (
          send
            (record item { lease_until = at })
            (set (execution_key codec item.id) encoded
              ∷ zadd (queue_key codec item.task_name) (score at) (codec.uuid_text item.id)
              ∷ zadd (leases_key codec) (score at) (codec.uuid_text item.id)
              ∷ []))
  shape_release :
      (input encoded : String) (at : Time)
      → item.status ≡ blocked
      → Shape codec item (
          let fresh = record item { status = pending; input = input; available_at = at } in
          send fresh (
            set (execution_key codec item.id) encoded
            ∷ (move_count codec fresh blocked
                ++ (move_status codec fresh blocked
                    ++ (zadd (queue_key codec item.task_name) (score at) (codec.uuid_text item.id)
                        ∷ [])))))

held : (a b c : Bool) → (not a || b || not c) ≡ false → a ≡ true
held a b c h = ground arith

is_running :
    (item : Execution) (token : Uuid)
    → (not (item.status == running) || token == nil_uuid || not (item.lease_token == token)) ≡ false
    → item.status ≡ running
is_running item token n =
    (status_beq_iff item.status running).0
      (held (item.status == running) (token == nil_uuid) (item.lease_token == token) n)

module _ (codec : Codec) (item : Execution) (at : Time) where
  pub saving-Shape :
      (event_id : Uuid) (saved : Saved)
      → IsMove item saved
      → Shape codec item (saving codec event_id item.status at saved)
  unfolding saving save_transition
  saving-Shape event_id saved m = elim (Result-cases (codec.execution_json saved.item)) [
    | inr (e, h) ↦ rw (h, saving) (shape_abort e)
    | inl (encoded, h) ↦
        elim (Result-cases
          (encode_event codec event_id saved.item saved.kind saved.error_text at)) [
            | inr (e, f) ↦ rw (h, f, saving) (shape_abort e)
            | inl (event, f) ↦ rw (h, f, saving) (shape_saved saved encoded event m)
          ]
  ]

  pub transition-Shape :
      (event_id token : Uuid) (mutate : Execution → Time → Saved)
      → IsMove item (mutate item at)
      → Shape codec item (transition codec event_id token mutate at item)
  unfolding transition
  transition-Shape event_id token mutate m =
      elim (Bool-cases
        (not (item.status == running) || token == nil_uuid || not (item.lease_token == token))) [
          | inl y ↦ rw (y, transition) (shape_abort lease_lost)
          | inr n ↦ rw (n, transition) (saving-Shape event_id (mutate item at) m)
        ]

  pub retrying-IsMove :
      (text : String) (delay : Duration) → IsMove item (retrying text delay item at)
  unfolding retrying is_active
  retrying-IsMove text delay = elim (Bool-cases (leb item.max_attempts item.attempt)) [
    | inl y ↦
        rw (y, retrying)
          (record { same_id = refl; same_task = refl; same_creation = refl; kept = refl })
    | inr n ↦
        rw (n, retrying)
          (record { same_id = refl; same_task = refl; same_creation = refl; kept = refl })
  ]

  pub heartbeat-Shape :
      (token : Uuid) (lease : Duration) → Shape codec item (heartbeat codec token lease at item)
  unfolding heartbeat
  heartbeat-Shape token lease =
      elim (Bool-cases
        (not (item.status == running) || token == nil_uuid || not (item.lease_token == token))) [
          | inl y ↦ rw (y, heartbeat) (shape_abort lease_lost)
          | inr n ↦
              elim (Result-cases
                (codec.execution_json (record item { lease_until = add_duration at lease }))) [
                  | inr (e, h) ↦ rw (n, h, heartbeat) (shape_abort e)
                  | inl (encoded, h) ↦
                      rw (n, h, heartbeat)
                        (shape_heartbeat (add_duration at lease) encoded (is_running item token n))
                ]
        ]
