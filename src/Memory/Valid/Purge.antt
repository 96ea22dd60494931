-- ===== src/Memory/Valid/Purge.antt =====
-- Purge keeps the store well-formed: the index entries of a deleted execution go with it.
use ody.Memory.Control.{in_run}
use ody.Memory.Valid.Update.{frame-IsValid}
use ody.Memory.Valid.Loop.{InLoop, InLoop-start, InLoop-skip}
use ody.Base.{
  ◌≡◌, some, ◌≢◌, some_inj, String, lookup-delete_ne, sym, Bool-cases, Option-cases,
  lookup_of_delete, ◌∙◌, ◌==◌, inl, delete-Distinct, ap, arith, nat_eq, eq_iff, inr, ap₂, string_eq,
  none, Map, ℕ, ℤ, List, ◌∷◌, for_range_inv, [], here, Distinct, ne_of_mem, there, refl, subst,
  find_or-none, find_or-some,
}
use ody.Memory.Purge.{
  delete_execution, delete_member, purge_run, purge_one, purge, Candidate, purge_each,
  purge_candidates,
}
use ody.Memory.{MemoryStore, idempotency_index, node_index, lookup, zero_execution}
use ody.Memory.Valid.{IsValid}
use ody.Execution.{Uuid, Execution, PurgeResult, Time, PipelineRun}

module _ (s : MemoryStore) (id : Uuid) (e : Execution) (v : IsValid s)
    (stored : lookup id s.executions ≡ some e) where
  -- What is under another key is still there.
  kept :
      (j : Uuid) (x : Execution)
      → id ≢ j
      → lookup j s.executions ≡ some x
      → lookup j (delete_execution id e s).executions ≡ some x
  unfolding delete_execution
  kept j x n h = lookup-delete_ne id j s.executions n ∙ h

  same_entry : (j : Uuid) (x : Execution) → id ≡ j → lookup j s.executions ≡ some x → e ≡ x
  same_entry j x p h = some_inj (sym stored ∙ ap (λ k. lookup k s.executions) p ∙ h)

  index_kept :
      (index : String) (j : Uuid)
      → lookup index (delete_execution id e s).idempotent ≡ some j
      → (lookup index s.idempotent ≡ some j) × (id ≢ j)
  unfolding delete_execution
  index_kept index j h = elim (Bool-cases (e.idempotency_key == "")) [
    | inl t ↦
        (let old = v.indexed index j (rw t at h) in
          (
            rw t at h,
            λ p. old.keyed (
                ap (λ (y : Execution). y.idempotency_key) (sym (same_entry j old.item p old.stored))
                ∙ (eq_iff e.idempotency_key "").0 t),
          ))
    | inr f ↦
        (let (ne, h') = lookup_of_delete _ index j s.idempotent (rw f at h) in
          let old = v.indexed index j h' in
          (
            h',
            λ p.
                let q = same_entry j old.item p old.stored in
                ne (
                  sym (
                    old.index_of
                    ∙ ap (λ (y : Execution). idempotency_index y.task_name y.idempotency_key)
                        (sym q))),
          ))
  ]

  node_kept :
      (index : String) (j : Uuid)
      → lookup index (delete_execution id e s).nodes ≡ some j
      → (lookup index s.nodes ≡ some j) × (id ≢ j)
  unfolding delete_execution
  node_kept index j h = elim (Option-cases e.pipeline_run_id) [
    | inl n ↦
        (let h' = rw n at h in
          let old = v.noded index j h' in
          (h', λ p. let q = same_entry j old.item p old.stored in ground (arith, q, n, old.member)))
    | inr (run, m) ↦
        (let (ne, h') = lookup_of_delete _ index j s.nodes (rw m at h) in
          let old = v.noded index j h' in
          (
            h',
            λ p.
                let q = same_entry j old.item p old.stored in
                let r : run ≡ old.run =
                  some_inj (sym m ∙ ap (λ (y : Execution). y.pipeline_run_id) q ∙ old.member) in
                ne
                  (ap₂ (λ x (y : Execution). node_index s.env x y.node_key) r q ∙ sym old.index_of),
          ))
  ]

  pub delete_execution-IsValid : IsValid (delete_execution id e s)
  delete_execution-IsValid = record {
    faithful = unfold delete_execution in v.faithful;
    distinct = unfold delete_execution in delete-Distinct id s.executions v.distinct;
    at_key = λ j x h. v.at_key j x (found j x h).1;
    consistent = λ j x h. v.consistent j x (found j x h).1;
    minted = λ j x h. unfold delete_execution in v.minted j x (found j x h).1;
    indexed = λ index j h.
        let (h', n) = index_kept index j h in
        let old = v.indexed index j h' in
        record {
          item = old.item;
          stored = kept j old.item n old.stored;
          index_of = old.index_of;
          keyed = old.keyed;
        };
    noded = λ index j h.
        let (h', n) = node_kept index j h in
        let old = v.noded index j h' in
        record {
          item = old.item;
          run = old.run;
          stored = kept j old.item n old.stored;
          member = old.member;
          index_of = unfold delete_execution in old.index_of;
        };
  }
    where
      found :
          (j : Uuid) (x : Execution)
          → lookup j (delete_execution id e s).executions ≡ some x
          → (id ≢ j) × (lookup j s.executions ≡ some x)
      found j x h = unfold delete_execution in lookup_of_delete id j x s.executions h

-- Deleting what is not there, as Purge would for a candidate that is gone.
delete_missing-IsValid :
    (s : MemoryStore) (id : Uuid)
    → IsValid s
    → lookup id s.executions ≡ none
    → IsValid (delete_execution id zero_execution s)
unfolding delete_execution zero_execution
delete_missing-IsValid s id v missing = record {
  faithful = v.faithful;
  distinct = delete-Distinct id s.executions v.distinct;
  at_key = λ j x h. v.at_key j x (lookup_of_delete id j x s.executions h).1;
  consistent = λ j x h. v.consistent j x (lookup_of_delete id j x s.executions h).1;
  minted = λ j x h. v.minted j x (lookup_of_delete id j x s.executions h).1;
  indexed = λ index j h.
      let old = v.indexed index j h in
      record {
        item = old.item;
        stored = lookup-delete_ne id j s.executions (apart j old.item old.stored) ∙ old.stored;
        index_of = old.index_of;
        keyed = old.keyed;
      };
  noded = λ index j h.
      let old = v.noded index j h in
      record {
        item = old.item;
        run = old.run;
        stored = lookup-delete_ne id j s.executions (apart j old.item old.stored) ∙ old.stored;
        member = old.member;
        index_of = old.index_of;
      };
}
  where
    apart : (j : Uuid) (x : Execution) → lookup j s.executions ≡ some x → id ≢ j
    apart j x h p = absurd (cc (missing, h, ap (λ k. lookup k s.executions) p))

delete_member-InLoop :
    (run id : Uuid) (e : Execution) (m : Map Uuid Execution) (r : ℕ × MemoryStore)
    → InLoop ((id, e) ∷ m) r.1
    → InLoop m (delete_member run id e r).1
unfolding delete_member
delete_member-InLoop run id e m (n, s) l = elim (Bool-cases (in_run run e)) [
  | inr f ↦ rw f (InLoop-skip id e m s l)
  | inl t ↦
      (let stored = l.agrees id e (here refl) in
        rw t (record {
          apart = unfold Distinct in l.apart.1;
          agrees = λ j x i.
              kept s id e l.valid stored j x (ne_of_mem id j e x m l.apart i)
                (l.agrees j x (there i));
          valid = delete_execution-IsValid s id e l.valid stored;
        }))
]

purge_run-IsValid :
    (id : Uuid) (r : PurgeResult × MemoryStore) → IsValid r.1 → IsValid (purge_run id r).1
unfolding purge_run
purge_run-IsValid id (result, s) v =
    put_runs-IsValid _
      (for_range_inv (λ m r. InLoop m r.1) (delete_member id) (delete_member-InLoop id) s.executions
        (result.executions, s) (InLoop-start s v)).valid
  where
    put_runs-IsValid :
        (t : MemoryStore) {runs : Map Uuid PipelineRun} {index : Map String Uuid}
        → IsValid t
        → IsValid (record t { runs = runs; run_idempotent = index })
    put_runs-IsValid t w = frame-IsValid t _ _ _ _ _ (omega arith) w

purge_one-IsValid :
    (c : Candidate) (r : PurgeResult × MemoryStore) → IsValid r.1 → IsValid (purge_one c r).1
unfolding purge_one
purge_one-IsValid c (result, s) v = elim (Bool-cases c.pipeline) [
  | inl t ↦ rw t (purge_run-IsValid c.id (result, s) v)
  | inr f ↦ rw f (elim (Option-cases (lookup c.id s.executions)) [
    | inl n ↦
        subst (λ e. IsValid (delete_execution c.id e s))
          (sym (find_or-none zero_execution c.id s.executions n))
          (delete_missing-IsValid s c.id v n)
    | inr (e, h) ↦
        subst (λ x. IsValid (delete_execution c.id x s))
          (sym (find_or-some zero_execution e c.id s.executions h))
          (delete_execution-IsValid s c.id e v h)
  ])
]

pub purge-IsValid :
    (before : Time) (limit : ℤ) (s : MemoryStore) → IsValid s → IsValid (purge before limit s).1
unfolding purge
purge-IsValid before limit s v = all (purge_candidates before limit s) _ v
  where
    all :
        (cs : List Candidate) (r : PurgeResult × MemoryStore)
        → IsValid r.1
        → IsValid (purge_each cs r).1
    all [] r w = w
    all (c ∷ cs) r w = all cs (purge_one c r) (purge_one-IsValid c r w)
