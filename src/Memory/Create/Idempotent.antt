-- ===== src/Memory/Create/Idempotent.antt =====
-- CreateExecution (execution/memory.go) with an idempotency key.
use ody.Base.{
  ◌≢◌, ◌≡◌, find_or, some, find_or-some, Bool-cases, ◌==◌, lookup-insert_self, inl, nat_eq,
  string_eq, inr, Option-cases, ap, refl, false, ◌∙◌, sym,
}
use ody.Memory.{MemoryStore, put_execution, append_event, zero_execution, idempotency_index}
use ody.Memory.Create.{create_execution, known_key, known_node, insert_execution, new_execution}
use ody.Execution.{err, message, CreateExecution, Execution, Result, ok}

module _ (request : CreateExecution) (s : MemoryStore) (keyed : request.idempotency_key ≢ "") where
  key_known :
      known_key (insert_execution s request).1 request ≡ some (insert_execution s request).0.id
  unfolding known_key insert_execution put_execution append_event new_execution
  key_known = elim (Bool-cases (request.idempotency_key == "")) [
    | inl t ↦ absurd (keyed ((string_eq.beq_iff request.idempotency_key "").0 t))
    | inr f ↦
        rw (f, known_key, insert_execution, append_event, put_execution, new_execution)
          (lookup-insert_self (idempotency_index request.task_name request.idempotency_key) _
            s.idempotent)
  ]

  execution_known :
      find_or zero_execution
        (insert_execution s request).0.id
        (insert_execution s request).1.executions
      ≡ (insert_execution s request).0
  unfolding insert_execution put_execution append_event new_execution
  execution_known = find_or-some zero_execution _ _ _ (lookup-insert_self _ _ s.executions)

  -- A call that changes nothing does the same again.
  unchanged_again :
      (r : Result Execution)
      → create_execution request s ≡ (r, s)
      → create_execution request (create_execution request s).1 ≡ create_execution request s
  unchanged_again r first = ap (λ x. create_execution request x.1) first

  -- A request with an idempotency key that is sent again returns what the first call returned, and
  -- changes nothing.
  pub create_execution_idem :
      create_execution request (create_execution request s).1 ≡ create_execution request s
  unfolding create_execution
  create_execution_idem = elim (Bool-cases (request.task_name == "")) [
    | inl t ↦ unchanged_again (err (message "task name is empty")) (rw (t, create_execution) refl)
    | inr f ↦ elim (Option-cases (known_key s request)) [
      | inr (id, h) ↦
          unchanged_again (ok (find_or zero_execution id s.executions))
            (rw (f, h, create_execution) refl)
      | inl n ↦ elim (Option-cases (known_node s request)) [
        | inr (id, h) ↦
            unchanged_again (ok (find_or zero_execution id s.executions))
              (rw (f, n, h, create_execution) refl)
        | inl k ↦
            (let first : create_execution request s ≡ (ok item, after) =
                rw (f, n, k, create_execution) refl in
              ap (λ x. create_execution request x.1) first ∙ again f ∙ sym first)
      ]
    ]
  ]
    where
      item : Execution
      item = (insert_execution s request).0

      after : MemoryStore
      after = (insert_execution s request).1

      again : (request.task_name == "") ≡ false → create_execution request after ≡ (ok item, after)
      again f =
          rw (f, key_known, create_execution)
            (ap (λ (e : Execution). (ok e, after)) execution_known)
