-- ===== src/Redis/Created.antt =====
-- CreateExecution and purgeExecution of the Redis store (execution/redis/store.go) on the sorted sets.
use ody.Execution.{is_active, pending, CreateExecution, Uuid, Time, Execution, pending, status_text}
use ody.Base.{
  String, List, Option, ℤ, ◌≡◌, none, ◌++◌, ◌∷◌, ◌∙◌, ap, inl, [], refl, false, beq_refl,
  Option-cases, inr, Bool, some, true, ◌||◌, arith, Bool-cases, ◌==◌, string_eq, if◌then◌else◌,
}
use ody.Redis.{
  Codec, Key, queue_key, leases_key, status_key, run_executions_key, executions_key, task_index_key,
}
use ody.Redis.Create.{
  new_record, set_all, references, run_entry, create_commands, purge_execution, purge_reference,
  purge_run,
}
use ody.Redis.Indexes.{IsIndexed, score_after, same_key, score_after-append}
use ody.Redis.Indexed.{scores_after, status_text_eq, ne_false}

score_after-set_all :
    (key : Key) (member value : String) (keys : List Key) (old : Option ℤ)
    → score_after key member (set_all keys value) old ≡ old
unfolding score_after
score_after-set_all key member value [] old = refl
score_after-set_all key member value (k ∷ keys) old = score_after-set_all key member value keys old

all_false :
    (a b c d e : Bool)
    → (a || b || c || d || e) ≡ false
    → (a ≡ false) × (b ≡ false) × (c ≡ false) × (d ≡ false) × (e ≡ false)
all_false a b c d e h = ground arith

module _ (codec : Codec) (request : CreateExecution) (id : Uuid) (at : Time)
    (encoded event : String) where
  abbrev pub created : Execution
  created = new_record request id at

  abbrev pub created_scores : Key → Option ℤ
  created_scores =
      scores_after codec created (create_commands codec created encoded event) (λ key. none)

  -- The references and the entry in the list of the run.
  last_commands :
      (key : Key) (old : Option ℤ)
      → score_after key
          (codec.uuid_text id)
          (set_all (references codec created) (codec.uuid_text id) ++ run_entry codec created)
          old
        ≡ score_after key (codec.uuid_text id) (run_entry codec created) old
  unfolding new_record
  last_commands key old =
      score_after-append key (codec.uuid_text id)
        (set_all (references codec created) (codec.uuid_text id)) (run_entry codec created) old
      ∙ ap (score_after key (codec.uuid_text id) (run_entry codec created)) (
          score_after-set_all key (codec.uuid_text id) (codec.uuid_text id)
            (references codec created) old)

  in_run :
      (key : Key) (old : Option ℤ)
      → ((run : Uuid) → same_key (run_executions_key codec run) key ≡ false)
      → score_after key (codec.uuid_text id) (run_entry codec created) old ≡ old
  unfolding score_after new_record
  in_run key old h = elim (Option-cases request.pipeline_run_id) [
    | inl n ↦ rw n refl
    | inr (run, y) ↦ rw (y, h run) refl
  ]

  -- A new execution stands in the sorted sets that its record says.
  pub create_commands-IsIndexed : IsIndexed codec created created_scores
  unfolding create_commands new_record score_after is_active
  create_commands-IsIndexed = record {
    in_status =
        last_commands (status_key codec pending) _
        ∙ in_run (status_key codec pending) _ (λ run. refl)
        ∙ rw (beq_refl (status_text pending), beq_refl (codec.uuid_text id)) refl;
    in_no_other = λ status n.
        last_commands (status_key codec status) _
        ∙ in_run (status_key codec status) _ (λ run. refl)
        ∙ rw (status_text_eq pending status, ne_false pending status n) refl;
    queued =
        last_commands (queue_key codec request.task_name) _
        ∙ in_run (queue_key codec request.task_name) _ (λ run. refl)
        ∙ rw (beq_refl (codec.base64 request.task_name), beq_refl (codec.uuid_text id)) refl;
    leased = inl (last_commands (leases_key codec) _ ∙ in_run (leases_key codec) _ (λ run. refl));
  }

  abbrev run_keys : Key → Bool
  run_keys key = elim request.pipeline_run_id [
    | none ↦ false
    | some run ↦ same_key (run_executions_key codec run) key
  ]

  -- Whether the key is that of a set that CreateExecution writes.
  abbrev is_written : Key → Bool
  is_written key =
      same_key (executions_key codec) key
      || same_key (task_index_key codec request.task_name) key
      || same_key (status_key codec pending) key
      || same_key (queue_key codec request.task_name) key
      || run_keys key

  unwritten : (key : Key) → is_written key ≡ false → created_scores key ≡ none
  unfolding create_commands new_record score_after
  unwritten key h =
      last_commands key _
      ∙ (let (a, b, c, d, e) =
            all_false (same_key (executions_key codec) key)
              (same_key (task_index_key codec request.task_name) key)
              (same_key (status_key codec pending) key)
              (same_key (queue_key codec request.task_name) key) (run_keys key) h in
          elim (Option-cases request.pipeline_run_id) [
            | inl n ↦ rw (n, a, b, c, d) refl
            | inr (run, y) ↦ rw (y, a, b, c, d, rw y at e) refl
          ])

  purge_last :
      (key : Key) (old : Option ℤ)
      → score_after key
          (codec.uuid_text id)
          (purge_reference codec created ++ purge_run codec created)
          old
        ≡ (if run_keys key then none else old)
  unfolding new_record score_after
  purge_last key old =
      score_after-append key (codec.uuid_text id) (purge_reference codec created)
        (purge_run codec created) old
      ∙ ap (score_after key (codec.uuid_text id) (purge_run codec created)) reference
      ∙ elim (Option-cases request.pipeline_run_id) [
        | inl n ↦ rw n refl
        | inr (run, n) ↦ rw (n, beq_refl (codec.uuid_text id)) (ground arith)
      ]
    where
      reference : score_after key (codec.uuid_text id) (purge_reference codec created) old ≡ old
      reference = elim (Bool-cases (request.idempotency_key == "")) [
        | inl y ↦ rw y refl
        | inr n ↦ rw n refl
      ]

  purged :
      (key : Key) (old : Option ℤ)
      → is_written key ≡ true
      → score_after key (codec.uuid_text id) (purge_execution codec created) old ≡ none
  unfolding purge_execution new_record score_after
  purged key old h = purge_last key _ ∙ rw (beq_refl (codec.uuid_text id)) (ground (arith, h))

  absent :
      (key : Key) → score_after key (codec.uuid_text id) (purge_execution codec created) none ≡ none
  unfolding purge_execution new_record score_after
  absent key = purge_last key _ ∙ ground arith

  -- Purging an execution as it was created takes it out of every sorted set: whatever the key, the
  -- execution is not in the set after CreateExecution's commands and then purgeExecution's.
  pub create_then_purge :
      (key : Key)
      → score_after key
          (codec.uuid_text id)
          (create_commands codec created encoded event ++ purge_execution codec created)
          none
        ≡ none
  unfolding create_commands purge_execution new_record
  create_then_purge key =
      score_after-append key (codec.uuid_text id) (create_commands codec created encoded event)
        (purge_execution codec created) none
      ∙ elim (Bool-cases (is_written key)) [
        | inl y ↦ purged key (created_scores key) y
        | inr n ↦
            ap (score_after key (codec.uuid_text id) (purge_execution codec created))
              (unwritten key n)
            ∙ absent key
      ]
