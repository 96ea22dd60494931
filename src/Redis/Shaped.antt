-- ===== src/Redis/Shaped.antt =====
-- What each operation of the Redis store (execution/redis/store.go) plans on one execution.
use ody.Redis.Subgraph.{node_commands, restart_node}
use ody.Redis.Encoding.{score}
use ody.Base.{
  String, Bool-cases, List, inr, not, inl, ◌==◌, refl, nat_eq, ltb, ◌≡◌, is_some, false, arith,
  true, string_eq, ◌∷◌, [], ◌++◌, sym, ◌∙◌, if◌then◌else◌, subst,
}
use ody.Execution.{
  pending, blocked, restarted, Status, is_active, is_terminal, blocked, Time, Execution, Uuid,
  Result-cases, running, status_eq, status_beq_iff, active, not_found, pipeline_execution, ok,
  err_ne_ok, ok_inj,
}
use ody.Redis.{
  Codec, Plan, send, set, execution_key, zadd, queue_key, leases_key, Command, zrem, rpush,
  events_key,
}
use ody.Redis.Transition.{Saved, encode_event, move_queue, move_count, move_status}
use ody.Redis.Operations.{
  reset, start_time, restart_commands, release_commands, succeeding, retrying, failing, cancelling,
  claiming, expiring, claim_candidate, cancel_execution, reap_candidate, restart_execution,
  release_execution, can_claim,
}
use ody.Redis.Indexed.{transaction}
use ody.Redis.Steps.{
  Step, step_heartbeat, step_succeed, step_retry, step_fail, step_claim, step_reap, step_cancel,
  step_restart, step_release, step_node,
}
use ody.Redis.Shape.{
  Shape, shape_abort, shape_saved, shape_release, heartbeat-Shape, transition-Shape,
  retrying-IsMove, saving-Shape, shape_skip, shape_remove,
}

inactive : (status : Status) → is_active status ≡ false → (status == pending) ≡ false
unfolding is_active
inactive status h = ground arith

module _ (codec : Codec) (item : Execution) (at : Time) where
  restart_commands-Shape :
      (event_id : Uuid) (available_at : Time)
      → (item.status == pending) ≡ false
      → Shape codec item (restart_commands codec event_id item.status at (reset available_at item))
  unfolding restart_commands reset move_queue is_active
  restart_commands-Shape event_id available_at n =
      elim (Result-cases (codec.execution_json fresh.item)) [
        | inr (e, h) ↦ rw (h, restart_commands) (shape_abort e)
        | inl (encoded, h) ↦
            elim (Result-cases (encode_event codec event_id fresh.item restarted "" at)) [
              | inr (e, f) ↦ rw (h, f, restart_commands) (shape_abort e)
              | inl (event, f) ↦
                  (let t : Shape codec item (
                        send fresh.item
                          (transaction codec fresh.item item.status true encoded event)) =
                      shape_saved fresh encoded event (record {
                        same_id = refl;
                        same_task = refl;
                        same_creation = refl;
                        kept = refl;
                      }) in
                    rw (h, f, restart_commands) (rw n at t))
            ]
      ]
    where
      fresh : Saved
      fresh = record {
        item = reset available_at item;
        kind = restarted;
        error_text = "";
        keep_in_queue = true;
      }

  restart-Shape :
      (event_id : Uuid) (available_at : Time)
      → Shape codec item (restart_execution codec event_id available_at at item)
  unfolding restart_execution
  restart-Shape event_id available_at = elim (Bool-cases (is_active item.status)) [
    | inl y ↦ rw (y, restart_execution) (shape_abort active)
    | inr n ↦ elim (Bool-cases (is_some item.pipeline_run_id)) [
      | inl y ↦ rw (n, y, restart_execution) (shape_abort pipeline_execution)
      | inr z ↦
          rw (n, z, restart_execution)
            (restart_commands-Shape event_id (start_time available_at at) (inactive item.status n))
    ]
  ]

  release-Shape :
      (input : String) (available_at : Time)
      → Shape codec item (release_execution codec input available_at at item)
  unfolding release_execution release_commands
  release-Shape input available_at = elim (Bool-cases (item.status == blocked)) [
    | inr n ↦ rw (n, release_execution) (shape_abort active)
    | inl y ↦ elim (Result-cases (codec.execution_json fresh)) [
      | inr (e, h) ↦ rw (y, h, release_execution, release_commands) (shape_abort e)
      | inl (encoded, h) ↦
          rw (y, h, release_execution, release_commands)
            (shape_release input encoded (start_time available_at at)
              ((status_beq_iff item.status blocked).0 y))
    ]
  ]
    where
      fresh : Execution
      fresh = record item {
        status = pending;
        input = input;
        available_at = start_time available_at at;
      }

  node_commands-ok :
      (event_id : Uuid) (moved : Execution) (commands : List Command)
      → node_commands codec event_id item.status at moved ≡ ok commands
      → (moved.status == running) ≡ false
      → (encoded : String) × (event : String) × (commands
          ≡ transaction codec moved item.status (moved.status == pending) encoded event)
  unfolding node_commands move_queue
  node_commands-ok event_id moved commands h n = elim (Result-cases (codec.execution_json moved)) [
    | inr (e, j) ↦ absurd (err_ne_ok (rw (j, node_commands) at h))
    | inl (encoded, j) ↦ elim (Result-cases (encode_event codec event_id moved restarted "" at)) [
      | inr (e, v) ↦ absurd (err_ne_ok (rw (j, v, node_commands) at h))
      | inl (event, v) ↦
          (encoded, event, sym (ok_inj (rw (j, v, node_commands) at h)) ∙ same_queue encoded event)
    ]
  ]
    where
      same_queue :
          (encoded event : String)
          → (set (execution_key codec moved.id) encoded
              ∷ ((if not (item.status == moved.status)
                    then move_count codec moved item.status
                    else [])
                  ++ (move_status codec moved item.status
                      ++ (zrem (leases_key codec) (codec.uuid_text moved.id)
                          ∷ (if moved.status == pending
                              then zadd
                                  (queue_key codec moved.task_name)
                                  (score moved.available_at)
                                  (codec.uuid_text moved.id)
                              else zrem
                                  (queue_key codec moved.task_name)
                                  (codec.uuid_text moved.id))
                          ∷ rpush (events_key codec moved.id) event
                          ∷ []))))
            ≡ transaction codec moved item.status (moved.status == pending) encoded event
      same_queue encoded event = elim (Bool-cases (moved.status == pending)) [
        | inl y ↦ rw (y, n) refl
        | inr f ↦ rw f refl
      ]

  node-Shape :
      (event_id : Uuid) (root : String) (available_at : Time) (commands : List Command)
      → node_commands codec event_id item.status at (restart_node root available_at item)
        ≡ ok commands
      → Shape codec item (send (restart_node root available_at item) commands)
  unfolding restart_node reset is_active
  node-Shape event_id root available_at commands h =
      let (encoded, event, q) =
        node_commands-ok event_id moved commands h
          (elim (Bool-cases (item.node_key == root)) [ inl y ↦ rw y refl | inr f ↦ rw f refl ]) in
      subst (λ x. Shape codec item (send moved x)) (sym q)
        (shape_saved
          (record {
            item = moved;
            kind = restarted;
            error_text = "";
            keep_in_queue = moved.status == pending;
          })
          encoded event
          (record {
            same_id = refl;
            same_task = refl;
            same_creation = refl;
            kept = elim (Bool-cases (item.node_key == root)) [
              | inl y ↦ rw y refl
              | inr f ↦ rw f refl
            ];
          }))
    where
      moved : Execution
      moved = restart_node root available_at item

  pub Step-Shape : {plan : Plan Execution} → Step codec at item plan → Shape codec item plan
  unfolding is_active succeeding failing claiming expiring cancelling claim_candidate
      cancel_execution reap_candidate can_claim
  Step-Shape (step_heartbeat token lease) = heartbeat-Shape codec item at token lease
  Step-Shape (step_succeed event_id token output) =
      transition-Shape codec item at event_id token (succeeding output)
        (record { same_id = refl; same_task = refl; same_creation = refl; kept = refl })
  Step-Shape (step_retry event_id token text delay) =
      transition-Shape codec item at event_id token (retrying text delay)
        (retrying-IsMove codec item at text delay)
  Step-Shape (step_fail event_id token text) =
      transition-Shape codec item at event_id token (failing text)
        (record { same_id = refl; same_task = refl; same_creation = refl; kept = refl })
  Step-Shape (step_claim event_id owner token accepted lease) =
      elim (Bool-cases (can_claim accepted at item)) [
        | inl y ↦
            rw (y, claim_candidate)
              (saving-Shape codec item at event_id (claiming owner token lease item at)
                (record { same_id = refl; same_task = refl; same_creation = refl; kept = refl }))
        | inr n ↦ rw (n, claim_candidate) shape_skip
      ]
  Step-Shape (step_reap event_id) = elim (Bool-cases (item.status == running)) [
    | inr n ↦ rw (n, reap_candidate) shape_remove
    | inl r ↦ elim (Bool-cases (ltb at item.lease_until)) [
      | inl y ↦ rw (r, y, reap_candidate) shape_skip
      | inr n ↦ elim (Bool-cases (ltb item.attempt item.max_attempts)) [
        | inl y ↦ rw (r, n, y, reap_candidate) shape_remove
        | inr z ↦
            rw (r, n, z, reap_candidate)
              (saving-Shape codec item at event_id (expiring item at)
                (record { same_id = refl; same_task = refl; same_creation = refl; kept = refl }))
      ]
    ]
  ]
  Step-Shape (step_cancel event_id reason) = elim (Bool-cases (is_terminal item.status)) [
    | inl y ↦ rw (y, cancel_execution) (shape_abort not_found)
    | inr n ↦
        rw (n, cancel_execution)
          (saving-Shape codec item at event_id (cancelling reason item at)
            (record { same_id = refl; same_task = refl; same_creation = refl; kept = refl }))
  ]
  Step-Shape (step_restart event_id available_at) = restart-Shape event_id available_at
  Step-Shape (step_release input available_at) = release-Shape input available_at
  Step-Shape (step_node event_id root available_at commands h) =
      node-Shape event_id root available_at commands h
