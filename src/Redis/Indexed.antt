-- ===== src/Redis/Indexed.antt =====
-- saveTransition (execution/redis/store.go) keeps an execution in the sorted sets of its status.
use ody.Base.{
  ◌==◌, ◌≡◌, String, List, Bool, Option, arith, if◌then◌else◌, ◌∷◌, ℤ, not, ◌++◌, Bool-cases, ◌∙◌,
  some, ◌&&◌, string_eq, [], inl, none, inr, refl, ℕ, sym, ap, eq_iff, nat_beq_iff, beq_refl, false,
  true, ◌≢◌,
}
use ody.Redis.{
  Codec, Key, Command, set, rpush, zrem, status_key, leases_key, queue_key, execution_key,
  events_key,
}
use ody.Redis.Encoding.{score}
use ody.Redis.Transition.{move_count, move_status, move_queue, Saved}
use ody.Redis.Indexes.{score_after, scored, score_after-append, IsIndexed, due_at}
use ody.Execution.{
  pending, blocked, running, retry, succeeded, failed, cancelled, status_index, status_beq_iff,
  Status, status_text, status_eq, is_active, Execution, running, status_index, pending, blocked,
  status_beq_iff,
}

abbrev status_number : String → ℕ
status_number text =
    if text == "pending"
    then 0
    else if text == "blocked"
    then 1
    else if text == "running"
    then 2
    else if text == "retry"
    then 3
    else if text == "succeeded"
    then 4
    else if text == "failed"
    then 5
    else 6

status_number-text : (a : Status) → status_number (status_text a) ≡ status_index a
unfolding status_text
status_number-text pending = refl
status_number-text blocked = refl
status_number-text running = refl
status_number-text retry = refl
status_number-text succeeded = refl
status_number-text failed = refl
status_number-text cancelled = refl

pub status_text_eq : (a b : Status) → (status_text a == status_text b) ≡ (a == b)
status_text_eq a b = elim (Bool-cases (status_text a == status_text b)) [
  | inl y ↦
      (let n =
          sym (status_number-text a)
          ∙ ap status_number ((eq_iff (status_text a) (status_text b)).0 y)
          ∙ status_number-text b in
        y ∙ sym ((nat_beq_iff (status_index a) (status_index b)).1 n))
  | inr n ↦ elim (Bool-cases (a == b)) [
    | inr z ↦ n ∙ sym z
    | inl z ↦
        (eq_iff (status_text a) (status_text b)).1 (ap status_text ((status_beq_iff a b).0 z))
        ∙ sym z
  ]
]

module _ (codec : Codec) (item : Execution) (previous : Status) where
  abbrev member : String
  member = codec.uuid_text item.id

  abbrev pub counts : List Command
  counts = if not (previous == item.status) then move_count codec item previous else []

  abbrev pub indexing : Bool → String → List Command
  indexing keep event =
      move_status codec item previous
      ++ (zrem (leases_key codec) member
          ∷ (move_queue codec item keep ++ (rpush (events_key codec item.id) event ∷ [])))

  -- The commands of saveTransition.
  abbrev pub transaction : Bool → String → String → List Command
  transaction keep encoded event =
      set (execution_key codec item.id) encoded ∷ (counts ++ indexing keep event)

  score_after-counts : (key : Key) (old : Option ℤ) → score_after key member counts old ≡ old
  unfolding score_after
  score_after-counts key old = elim (Bool-cases (previous == item.status)) [
    | inl y ↦ rw y refl
    | inr n ↦ rw n refl
  ]

  -- The counters and the event have no part in the sorted sets.
  score_after-transaction :
      (key : Key) (keep : Bool) (encoded event : String) (old : Option ℤ)
      → score_after key member (transaction keep encoded event) old
        ≡ score_after key member (move_queue codec item keep) (
            scored key member
              (zrem (leases_key codec) member)
              (score_after key member (move_status codec item previous) old))
  unfolding score_after
  score_after-transaction key keep encoded event old =
      score_after-append key member counts (indexing keep event) old
      ∙ rw (score_after-counts key old) (
          score_after-append key member (move_queue codec item keep)
            (rpush (events_key codec item.id) event ∷ []) _)

  queue_elsewhere :
      (status : Status) (keep : Bool) (old : Option ℤ)
      → score_after (status_key codec status) member (move_queue codec item keep) old ≡ old
  unfolding score_after move_queue
  queue_elsewhere status false old = refl
  queue_elsewhere status true old = elim (Bool-cases (item.status == running)) [
    | inl y ↦ rw y refl
    | inr n ↦ rw n refl
  ]

  in_statuses :
      (status : Status) (keep : Bool) (encoded event : String) (old : Option ℤ)
      → score_after (status_key codec status) member (transaction keep encoded event) old ≡ (
          if item.status == status
          then some (score item.created_at)
          else if previous == status
          then none
          else old)
  unfolding score_after
  in_statuses status keep encoded event old =
      score_after-transaction (status_key codec status) keep encoded event old
      ∙ queue_elsewhere status keep _
      ∙ rw (status_text_eq item.status status, status_text_eq previous status, beq_refl member)
          (ground arith)

  leases_after :
      (keep : Bool) (old : Option ℤ)
      → old ≡ none
      → score_after (leases_key codec) member (move_queue codec item keep) old
        ≡ (if keep && item.status == running then some (score item.lease_until) else none)
  unfolding score_after move_queue
  leases_after false old h = h
  leases_after true old h = elim (Bool-cases (item.status == running)) [
    | inl y ↦ rw (y, beq_refl member) refl
    | inr n ↦ rw n h
  ]

  queue_after :
      (keep : Bool) (old : Option ℤ)
      → score_after (queue_key codec item.task_name) member (move_queue codec item keep) old
        ≡ (if keep then some (score (due_at item)) else none)
  unfolding score_after move_queue
  queue_after false old = rw (beq_refl (codec.base64 item.task_name), beq_refl member) refl
  queue_after true old = elim (Bool-cases (item.status == running)) [
    | inl y ↦ rw (y, beq_refl (codec.base64 item.task_name), beq_refl member) refl
    | inr n ↦ rw (n, beq_refl (codec.base64 item.task_name), beq_refl member) refl
  ]

  in_leases :
      (keep : Bool) (encoded event : String) (old : Option ℤ)
      → score_after (leases_key codec) member (transaction keep encoded event) old
        ≡ (if keep && item.status == running then some (score item.lease_until) else none)
  unfolding score_after move_queue
  in_leases keep encoded event old =
      score_after-transaction (leases_key codec) keep encoded event old
      ∙ leases_after keep (scored (leases_key codec) member (zrem (leases_key codec) member) old)
          (rw (beq_refl member) refl)

  in_queue :
      (keep : Bool) (encoded event : String) (old : Option ℤ)
      → score_after (queue_key codec item.task_name) member (transaction keep encoded event) old
        ≡ (if keep then some (score (due_at item)) else none)
  unfolding score_after move_queue
  in_queue keep encoded event old =
      score_after-transaction (queue_key codec item.task_name) keep encoded event old
      ∙ queue_after keep old

pub ne_false : (a b : Status) → b ≢ a → (a == b) ≡ false
ne_false a b n = elim (Bool-cases (a == b)) [
  | inl y ↦ absurd (n (sym ((status_beq_iff a b).0 y)))
  | inr z ↦ z
]

pub false_ne : (a b : Status) → (a == b) ≡ false → b ≢ a
false_ne a b n p = let y = (status_beq_iff a b).1 (sym p) in cc (y, n)

and_right : (a b : Bool) → (a && b) ≡ true → b ≡ true
and_right a b h = ground arith

-- A mutation of a record that keeps its identity, its task and its creation, and that leaves it in the
-- queue exactly if it is to be delivered.
pub record IsMove (item : Execution) (saved : Saved) : Type 0 where
  pub same_id : saved.item.id ≡ item.id
  pub same_task : saved.item.task_name ≡ item.task_name
  pub same_creation : saved.item.created_at ≡ item.created_at
  pub kept : saved.keep_in_queue ≡ is_active saved.item.status

-- The scores of the execution's member after a transaction.
abbrev pub scores_after : Codec → Execution → List Command → (Key → Option ℤ) → Key → Option ℤ
scores_after codec item commands scores =
    λ key. score_after key (codec.uuid_text item.id) commands (scores key)

module _ (codec : Codec) (item : Execution) (scores : Key → Option ℤ)
    (x : IsIndexed codec item scores) where
  pub transaction-IsIndexed :
      (saved : Saved) (encoded event : String)
      → IsMove item saved
      → IsIndexed codec saved.item (
          scores_after codec saved.item
            (transaction codec saved.item item.status saved.keep_in_queue encoded event)
            scores)
  transaction-IsIndexed saved encoded event m = record {
    in_status =
        in_statuses codec saved.item item.status saved.item.status saved.keep_in_queue encoded event
          _
        ∙ rw (beq_refl saved.item.status) refl;
    in_no_other = λ status n.
        in_statuses codec saved.item item.status status saved.keep_in_queue encoded event _
        ∙ other status n;
    queued =
        in_queue codec saved.item item.status saved.keep_in_queue encoded event _ ∙ rw m.kept refl;
    leased = elim (Bool-cases (saved.keep_in_queue && saved.item.status == running)) [
      | inl y ↦ inr (
        (status_beq_iff saved.item.status running).0 (and_right saved.keep_in_queue _ y),
        in_leases codec saved.item item.status saved.keep_in_queue encoded event _ ∙ rw y refl,
      )
      | inr n ↦
          inl
            (in_leases codec saved.item item.status saved.keep_in_queue encoded event _ ∙ rw n refl)
    ];
  }
    where
      other :
          (status : Status)
          → status ≢ saved.item.status
          → (if saved.item.status == status
              then some (score saved.item.created_at)
              else if item.status == status
              then none
              else scores (status_key codec status))
            ≡ none
      other status n =
          rw (ne_false saved.item.status status n) (elim (Bool-cases (item.status == status)) [
            | inl y ↦ rw y refl
            | inr z ↦ rw z (x.in_no_other status (false_ne item.status status z))
          ])
