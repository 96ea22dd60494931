-- ===== src/Memory/Valid/Update.antt =====
-- Writing an execution back under its key keeps the store well-formed, if the new value is
-- consistent and keeps its identity; so does appending an event.
use ody.Base.{
  Map, List, ◌≤◌, ℕ, String, ◌≤◌, ◌≡◌, refl, sym, ap, ◌∙◌, some, lookup, nat_eq, inl, inr, arith,
  lookup_of_insert, lookup-insert_self, lookup-insert_ne, insert-Distinct, some_inj, ℕ_discrete,
}
use ody.Execution.{Uuid, Execution, Event, EventType, PipelineRun}
use ody.Memory.{MemoryStore, put_execution, append_event, commit}
use ody.Memory.Valid.{IsConsistent, SameIdentity, IsValid}

module _ (s : MemoryStore) (id : Uuid) (e f : Execution) (stored : lookup id s.executions ≡ some e)
    (same : SameIdentity e f) where
  -- What the indexes point at is still there, under the same identity.
  find_after :
      (j : Uuid) (x : Execution)
      → lookup j s.executions ≡ some x
      → (y : Execution) × (lookup j (put_execution s id f).executions ≡ some y) × SameIdentity x y
  unfolding put_execution
  find_after j x h = elim (ℕ_discrete id j) [
    | yes p ↦
        (let q : x ≡ e = some_inj (sym h ∙ ap (λ k. lookup k s.executions) (sym p) ∙ stored) in
          (f, rw (← p) (lookup-insert_self id f s.executions), rw q same))
    | no n ↦ (
      x,
      lookup-insert_ne id j f s.executions n ∙ h,
      record {
        same_id = refl;
        same_task = refl;
        same_key = refl;
        same_run = refl;
        same_node = refl;
      },
    )
  ]

  pub put_execution-IsValid : IsConsistent f → IsValid s → IsValid (put_execution s id f)
  unfolding put_execution
  put_execution-IsValid c v = record {
    faithful = v.faithful;
    distinct = insert-Distinct id f s.executions v.distinct;
    at_key = λ j x h. elim (lookup_of_insert id j f x s.executions h) [
      | inl (p, q) ↦ ap (λ (y : Execution). y.id) (sym q) ∙ same.same_id ∙ v.at_key id e stored ∙ p
      | inr (n, o) ↦ v.at_key j x o
    ];
    consistent = λ j x h. elim (lookup_of_insert id j f x s.executions h) [
      | inl (p, q) ↦ rw (← q) c
      | inr (n, o) ↦ v.consistent j x o
    ];
    minted = λ j x h. elim (lookup_of_insert id j f x s.executions h) [
      | inl (p, q) ↦ rw (← p) (v.minted id e stored)
      | inr (n, o) ↦ v.minted j x o
    ];
    indexed = λ index j h.
        let old = v.indexed index j h in
        let (y, at, kept) = find_after j old.item old.stored in
        record {
          item = y;
          stored = at;
          index_of = rw (kept.same_task, kept.same_key) old.index_of;
          keyed = rw kept.same_key old.keyed;
        };
    noded = λ index j h.
        let old = v.noded index j h in
        let (y, at, kept) = find_after j old.item old.stored in
        record {
          item = y;
          run = old.run;
          stored = at;
          member = kept.same_run ∙ old.member;
          index_of = rw kept.same_node old.index_of;
        };
  }

-- Nothing else that a method writes is looked at, and a counter that grows does no harm.
pub frame-IsValid :
    (s : MemoryStore) (runs : Map Uuid PipelineRun) (run_idempotent : Map String Uuid)
    (events : Map Uuid (List Event)) (reads mints : ℕ)
    → s.mints ≤ mints
    → IsValid s
    → IsValid (record s {
      runs = runs;
      run_idempotent = run_idempotent;
      events = events;
      reads = reads;
      mints = mints;
    })
frame-IsValid s runs run_idempotent events reads mints more v = record {
  faithful = v.faithful;
  distinct = v.distinct;
  at_key = v.at_key;
  consistent = v.consistent;
  minted = λ id e h. let (k, lt, eq) = v.minted id e h in (k, omega arith, eq);
  indexed = λ index id h.
      let old = v.indexed index id h in
      record { item = old.item; stored = old.stored; index_of = old.index_of; keyed = old.keyed };
  noded = λ index id h.
      let old = v.noded index id h in
      record {
        item = old.item;
        run = old.run;
        stored = old.stored;
        member = old.member;
        index_of = old.index_of;
      };
}

pub append_event-IsValid :
    (s : MemoryStore) (item : Execution) (kind : EventType) (text : String)
    → IsValid s
    → IsValid (append_event s item kind text)
unfolding append_event
append_event-IsValid s item kind text v = frame-IsValid s _ _ _ _ _ (omega arith) v

pub commit-IsValid :
    (s : MemoryStore) (id : Uuid) (e f : Execution) (kind : EventType) (text : String)
    → lookup id s.executions ≡ some e
    → SameIdentity e f
    → IsConsistent f
    → IsValid s
    → IsValid (commit s id f kind text)
unfolding commit
commit-IsValid s id e f kind text stored same c v =
    append_event-IsValid (put_execution s id f) f kind text
      (put_execution-IsValid s id e f stored same c v)
