-- ===== src/Redis/Counted.antt =====
-- The counters of the executions of a task with a status (execution/redis/store.go), which saveTransition,
-- RestartExecution and ReleaseExecution move.
use ody.Redis.Shaped.{Step-Shape}
use ody.Redis.Steps.{Step}
use ody.Redis.Shape.{
  Shape, shape_abort, shape_saved, shape_heartbeat, shape_release, shape_skip, shape_remove,
}
use ody.Redis.Transition.{move_queue, move_count, count_field, Saved}
use ody.Execution.{Execution, Status, running, status_eq, pending, Time, status_beq_iff, blocked}
use ody.Base.{
  Bool, ℤ, String, ℕ, List, pos, if◌then◌else◌, ◌∷◌, ◌++◌, negsuc, ◌+◌, ◌≡◌, suc, ◌&&◌, ◌==◌, arith,
  true, [], false, string_eq, Bool-cases, refl, inl, inr, ap₂, sym, subst,
}
use ody.Redis.{hincr_by, Codec, Command, Plan, abort, exists, execution_counts_key, send, skip}
use ody.Redis.Indexes.{same_key}
use ody.Redis.Indexed.{transaction, IsMove, indexing, counts}

-- What is added by an increment, or taken away.
abbrev pub part : Bool → ℤ → ℕ
part true (pos n) = n
part true (negsuc n) = 0
part false (pos n) = 0
part false (negsuc n) = suc n

-- What a command adds to a field of the counters, or takes from it.
abbrev pub amount : Codec → Bool → String → Command → ℕ
amount codec raise field (hincr_by key name n) =
    if same_key key (execution_counts_key codec) && name == field then part raise n else 0
amount codec raise field _ = 0

unfoldable pub total : Codec → Bool → String → List Command → ℕ
total codec raise field [] = 0
total codec raise field (command ∷ commands) =
    amount codec raise field command + total codec raise field commands

-- How often the counter with the name of the field counts the execution.
abbrev pub stands : Execution → String → ℕ
stands item field = if count_field item.task_name item.status == field then 1 else 0

total-append :
    (codec : Codec) (raise : Bool) (field : String) (xs ys : List Command)
    → total codec raise field (xs ++ ys) ≡ total codec raise field xs + total codec raise field ys
unfolding total
total-append codec raise field [] ys = omega arith
total-append codec raise field (x ∷ xs) ys =
    let h = total-append codec raise field xs ys in omega (arith, h)

module _ (codec : Codec) (item : Execution) where
  -- What holds of a plan that moves the counters with the record.
  abbrev pub IsExact : Plan Execution → Type 0
  IsExact (abort e) = Unit
  IsExact skip = Unit
  IsExact (exists id) = Unit
  IsExact (send sent commands) =
      (field : String)
      → total codec true field commands + stands item field
        ≡ total codec false field commands + stands sent field

  total-move_count :
      (raise : Bool) (field : String) (moved : Execution) (previous : Status)
      → total codec raise field (move_count codec moved previous) ≡ (
          if raise
          then (if count_field moved.task_name moved.status == field then 1 else 0)
          else (if count_field moved.task_name previous == field then 1 else 0))
  unfolding total
  total-move_count true field moved previous = ground arith
  total-move_count false field moved previous = ground arith

  total-indexing :
      (raise : Bool) (field : String) (moved : Execution) (previous : Status) (keep : Bool)
      (event : String)
      → total codec raise field (indexing codec moved previous keep event) ≡ 0
  unfolding total move_queue
  total-indexing raise field moved previous false event = refl
  total-indexing raise field moved previous true event =
      elim (Bool-cases (moved.status == running)) [ inl y ↦ rw y refl | inr n ↦ rw n refl ]

  total-transaction :
      (raise : Bool) (field : String) (moved : Execution) (previous : Status) (keep : Bool)
      (encoded event : String)
      → total codec raise field (transaction codec moved previous keep encoded event)
        ≡ total codec raise field (counts codec moved previous)
  unfolding total
  total-transaction raise field moved previous keep encoded event =
      let a =
        total-append codec raise field (counts codec moved previous)
          (indexing codec moved previous keep event) in
      let b = total-indexing raise field moved previous keep event in omega (arith, a, b)

  -- The execution is counted in the same field if its status is the same.
  stands_same :
      (moved : Execution) (field : String)
      → moved.task_name ≡ item.task_name
      → item.status ≡ moved.status
      → stands item field ≡ stands moved field
  stands_same moved field p q =
      ap₂ (λ name status. if count_field name status == field then 1 else 0) (sym p) q

  counts_same :
      (raise : Bool) (field : String) (moved : Execution)
      → (item.status == moved.status) ≡ true
      → total codec raise field (counts codec moved item.status) ≡ 0
  unfolding total
  counts_same raise field moved y = rw y refl

  counts_moved :
      (raise : Bool) (field : String) (moved : Execution)
      → (item.status == moved.status) ≡ false
      → total codec raise field (counts codec moved item.status)
        ≡ total codec raise field (move_count codec moved item.status)
  counts_moved raise field moved n = rw n refl

  -- The counter of the new status is raised and that of the old one lowered.
  moved-IsExact :
      (moved : Execution) (field : String) (previous : Status)
      → moved.task_name ≡ item.task_name
      → item.status ≡ previous
      → total codec true field (move_count codec moved previous) + stands item field
        ≡ total codec false field (move_count codec moved previous) + stands moved field
  moved-IsExact moved field previous p q =
      let a = total-move_count true field moved previous in
      let b = total-move_count false field moved previous in
      let c : stands item field ≡ (if count_field moved.task_name previous == field then 1 else 0) =
        ap₂ (λ name status. if count_field name status == field then 1 else 0) (sym p) q in
      omega (arith, a, b, c)

  saved-IsExact :
      (saved : Saved) (encoded event : String)
      → IsMove item saved
      → IsExact (
          send saved.item
            (transaction codec saved.item item.status saved.keep_in_queue encoded event))
  saved-IsExact saved encoded event m field = elim (Bool-cases (item.status == saved.item.status)) [
    | inl y ↦
        (let c = counts_same true field saved.item y in
          let d = counts_same false field saved.item y in
          let e =
            stands_same saved.item field m.same_task
              ((status_beq_iff item.status saved.item.status).0 y) in
          omega (arith, raised, lowered, c, d, e))
    | inr n ↦
        (let c = counts_moved true field saved.item n in
          let d = counts_moved false field saved.item n in
          let e = moved-IsExact saved.item field item.status m.same_task refl in
          omega (arith, raised, lowered, c, d, e))
  ]
    where
      raised :
          total codec true field
            (transaction codec saved.item item.status saved.keep_in_queue encoded event)
          ≡ total codec true field (counts codec saved.item item.status)
      raised = total-transaction true field saved.item item.status saved.keep_in_queue encoded event

      lowered :
          total codec false field
            (transaction codec saved.item item.status saved.keep_in_queue encoded event)
          ≡ total codec false field (counts codec saved.item item.status)
      lowered =
          total-transaction false field saved.item item.status saved.keep_in_queue encoded event

  Shape-IsExact : {plan : Plan Execution} → Shape codec item plan → IsExact plan
  unfolding total
  Shape-IsExact (shape_abort e) = tt
  Shape-IsExact shape_skip = tt
  Shape-IsExact shape_remove = λ field. refl
  Shape-IsExact (shape_saved saved encoded event m) = saved-IsExact saved encoded event m
  Shape-IsExact (shape_heartbeat at encoded r) = λ field. refl
  Shape-IsExact (shape_release input encoded at b) = λ field.
      (let e =
          moved-IsExact (record item { status = pending; input = input; available_at = at }) field
            blocked refl b in
        omega (arith, e))

-- Whatever transaction an operation on one execution sends, and the part on each node of that of
-- RestartPipelineSubgraph, the counters of executions by task and status
-- stay exact: for each field, what the transaction adds to it and what it takes from it differ by the
-- executions that it counts before and after, that is by one if the execution leaves or enters the field.
pub Step-IsExact :
    (codec : Codec) (at : Time) (item sent : Execution) (commands : List Command)
    (plan : Plan Execution) (field : String)
    → Step codec at item plan
    → plan ≡ send sent commands
    → total codec true field commands + stands item field
      ≡ total codec false field commands + stands sent field
Step-IsExact codec at item sent commands plan field step e =
    (subst (IsExact codec item) e (Shape-IsExact codec item (Step-Shape codec item at step))) field
