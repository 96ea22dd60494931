-- ===== src/Redis/Kept.antt =====
-- The sorted sets of an execution after a transaction of the Redis store (execution/redis/store.go).
use ody.Redis.Shaped.{Step-Shape}
use ody.Redis.Steps.{Step}
use ody.Redis.Shape.{
  Shape, shape_abort, shape_saved, shape_heartbeat, shape_release, shape_skip, shape_remove,
}
use ody.Redis.Encoding.{score}
use ody.Base.{
  Option, ℤ, String, Bool-cases, List, inr, inl, ◌==◌, refl, nat_eq, subst, beq_refl, ◌≡◌, ◌≢◌, ◌∙◌,
  none, sym, if◌then◌else◌, ◌&&◌, some, string_eq, ◌∷◌, [],
}
use ody.Execution.{
  status_text, pending, blocked, Status, is_active, blocked, Time, Execution, running, status_eq,
}
use ody.Redis.{
  exists, Codec, Key, Command, Plan, send, abort, skip, status_key, set, execution_key, zadd,
  queue_key, leases_key,
}
use ody.Redis.Transition.{Saved}
use ody.Redis.Operations.{remove_lease_index}
use ody.Redis.Indexes.{IsIndexed, score_after}
use ody.Redis.Indexed.{
  IsMove, scores_after, transaction, transaction-IsIndexed, status_text_eq, ne_false, false_ne,
}

running_ne_blocked : running ≢ blocked
running_ne_blocked h = cc

-- A status that is neither the new one nor, unless its set was left, the old one.
elsewhere :
    (new previous status : Status) (member : String) (at : ℤ) (old : Option ℤ)
    → status ≢ new
    → (status ≢ previous → old ≡ none)
    → (if status_text new == status_text status && member == member
        then some at
        else if status_text previous == status_text status && member == member
        then none
        else old)
      ≡ none
elsewhere new previous status member at old n h =
    rw
      (
        status_text_eq new status,
        status_text_eq previous status,
        ne_false new status n,
        beq_refl member,
      )
      (elim (Bool-cases (previous == status)) [
        | inl y ↦ rw y refl
        | inr z ↦ rw z (h (false_ne previous status z))
      ])

module _ (codec : Codec) (item : Execution) (scores : Key → Option ℤ)
    (x : IsIndexed codec item scores) where
  -- What holds of a plan if the execution stands in its sets after the transaction.
  abbrev Keeps : Plan Execution → Type 0
  Keeps (abort e) = Unit
  Keeps skip = Unit
  Keeps (exists id) = Unit
  Keeps (send sent commands) = IsIndexed codec sent (scores_after codec item commands scores)

  saved-Keeps :
      (saved : Saved) (encoded event : String)
      → IsMove item saved
      → Keeps (
          send saved.item
            (transaction codec saved.item item.status saved.keep_in_queue encoded event))
  saved-Keeps saved encoded event m =
      subst
        (λ id. IsIndexed codec saved.item (λ key.
          score_after key (codec.uuid_text id)
            (transaction codec saved.item item.status saved.keep_in_queue encoded event)
            (scores key)))
        m.same_id (transaction-IsIndexed codec item scores x saved encoded event m)

  -- Without the deadline of its lease, the execution stands where it did.
  removed : Keeps (remove_lease_index codec item)
  unfolding score_after
  removed = record {
    in_status = x.in_status;
    in_no_other = x.in_no_other;
    queued = x.queued;
    leased = inl (rw (beq_refl (codec.uuid_text item.id)) refl);
  }

  heartbeat-Keeps :
      (at : Time) (encoded : String)
      → item.status ≡ running
      → Keeps (
          send
            (record item { lease_until = at })
            (set (execution_key codec item.id) encoded
              ∷ zadd (queue_key codec item.task_name) (score at) (codec.uuid_text item.id)
              ∷ zadd (leases_key codec) (score at) (codec.uuid_text item.id)
              ∷ []))
  unfolding score_after is_active
  heartbeat-Keeps at encoded r = record {
    in_status = x.in_status;
    in_no_other = x.in_no_other;
    queued =
        rw (beq_refl (codec.base64 item.task_name), beq_refl (codec.uuid_text item.id), r) refl;
    leased = inr (r, rw (beq_refl (codec.uuid_text item.id)) refl);
  }

  Shape-Keeps : {plan : Plan Execution} → Shape codec item plan → Keeps plan
  unfolding score_after is_active
  Shape-Keeps (shape_abort e) = tt
  Shape-Keeps shape_skip = tt
  Shape-Keeps shape_remove = removed
  Shape-Keeps (shape_saved saved encoded event m) = saved-Keeps saved encoded event m
  Shape-Keeps (shape_heartbeat at encoded r) = heartbeat-Keeps at encoded r
  Shape-Keeps (shape_release input encoded at b) = record {
    in_status = rw (beq_refl (status_text pending), beq_refl (codec.uuid_text item.id)) refl;
    in_no_other = λ status n.
        elsewhere pending blocked status (codec.uuid_text item.id) (score item.created_at)
          (scores (status_key codec status)) n (λ q. x.in_no_other status (λ p. q (p ∙ b)));
    queued = rw (beq_refl (codec.base64 item.task_name), beq_refl (codec.uuid_text item.id)) refl;
    leased = elim x.leased [ inl p ↦ inl p | inr (r, p) ↦ absurd (running_ne_blocked (sym r ∙ b)) ];
  }

-- Whatever transaction an operation on one execution sends, and the part on each node of that of
-- RestartPipelineSubgraph, an execution that stood in the sorted sets
-- of its record stands in those of the record that is written: its status and no other, its queue
-- exactly if it is active, and with the time of its lease or of its availability as the score.
pub Step-IsIndexed :
    (codec : Codec) (at : Time) (item sent : Execution) (commands : List Command)
    (plan : Plan Execution) (scores : Key → Option ℤ)
    → Step codec at item plan
    → plan ≡ send sent commands
    → IsIndexed codec item scores
    → IsIndexed codec sent (scores_after codec item commands scores)
Step-IsIndexed codec at item sent commands plan scores step e x =
    subst (Keeps codec item scores x) e
      (Shape-Keeps codec item scores x (Step-Shape codec item at step))
