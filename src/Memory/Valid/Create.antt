-- ===== src/Memory/Valid/Create.antt =====
-- CreateExecution keeps the store well-formed: a fresh identifier stands under no key, and the new
-- index entries point at the new execution.
use ody.Base.{
  String, ◌≡◌, ◌≢◌, sym, ap, ◌∙◌, inl, inr, false, some, lookup, arith, nat_eq, string_eq, eq_iff,
  ◌==◌, Bool-cases, Option-cases, lookup_of_insert, lookup-insert_self, lookup-insert_ne,
  insert-Distinct, ◌⊎◌, Distinct,
}
use ody.Execution.{Uuid, Time, Execution, CreateExecution, created, is_terminal}
use ody.Memory.{
  MemoryStore, IsFaithful, Env, now, after_now, new_uuid, after_uuid, idempotency_index, node_index,
  put_execution, new_memory_store,
}
use ody.Memory.Create.{
  remember, remember_node, known_key, known_node, new_execution, insert_execution, create_execution,
}
use ody.Memory.Valid.{IsConsistent, IsIndexed, IsNode, IsValid}
use ody.Memory.Valid.Update.{append_event-IsValid}

new_execution-IsConsistent :
    (request : CreateExecution) (id : Uuid) (at : Time) → IsConsistent (new_execution request id at)
unfolding new_execution is_terminal
new_execution-IsConsistent request id at = ground arith

-- A fresh identifier is no key of the store.
pub fresh_ne :
    (s : MemoryStore) (id : Uuid) (e : Execution)
    → IsValid s
    → lookup id s.executions ≡ some e
    → new_uuid s ≢ id
fresh_ne s id e v h p =
    let (k, lt, eq) = v.minted id e h in
    absurd (omega (arith, v.faithful.mint_injective s.mints k (p ∙ sym eq)))

module _ (s : MemoryStore) (request : CreateExecution) (v : IsValid s) where
  abbrev item : Execution
  item = new_execution request (new_uuid s) (now s)

  abbrev indexed_store : MemoryStore
  indexed_store = record (put_execution (after_uuid (after_now s)) item.id item) {
    idempotent =
        remember request.idempotency_key
          (idempotency_index request.task_name request.idempotency_key) item.id s.idempotent;
    nodes = remember_node s request item.id s.nodes;
  }

  kept :
      (id : Uuid) (e : Execution)
      → lookup id s.executions ≡ some e
      → lookup id indexed_store.executions ≡ some e
  unfolding put_execution new_execution
  kept id e h = lookup-insert_ne (new_uuid s) id item s.executions (fresh_ne s id e v h) ∙ h

  stored_new : lookup (new_uuid s) indexed_store.executions ≡ some item
  unfolding put_execution new_execution
  stored_new = lookup-insert_self (new_uuid s) item s.executions

  old_index : (index : String) (id : Uuid) → IsIndexed s index id → IsIndexed indexed_store index id
  old_index index id old = record {
    item = old.item;
    stored = kept id old.item old.stored;
    index_of = old.index_of;
    keyed = old.keyed;
  }

  index_after :
      {index : String} {id : Uuid}
      → (request.idempotency_key == "") ≡ false
      → lookup index indexed_store.idempotent ≡ some id
      → (idempotency_index request.task_name request.idempotency_key ≡ index) × (new_uuid s ≡ id)
        ⊎ (idempotency_index request.task_name request.idempotency_key ≢ index)
          × (lookup index s.idempotent ≡ some id)
  unfolding new_execution
  index_after {index} {id} n h = lookup_of_insert _ index _ id s.idempotent (rw n at h)

  node_after :
      {index : String} {id : Uuid} (run : Uuid)
      → request.pipeline_run_id ≡ some run
      → (request.node_key == "") ≡ false
      → lookup index indexed_store.nodes ≡ some id
      → (node_index s.env run request.node_key ≡ index) × (new_uuid s ≡ id)
        ⊎ (node_index s.env run request.node_key ≢ index) × (lookup index s.nodes ≡ some id)
  unfolding new_execution
  node_after {index} {id} run e n h = lookup_of_insert _ index _ id s.nodes (rw n at (rw e at h))

  new_index :
      (index : String) (id : Uuid)
      → lookup index indexed_store.idempotent ≡ some id
      → IsIndexed indexed_store index id
  new_index index id h = elim (Bool-cases (request.idempotency_key == "")) [
    | inl t ↦ old_index index id (v.indexed index id (ground arith))
    | inr n ↦ elim (index_after n h) [
      | inl (p, q) ↦ record {
        item = item;
        stored = rw (← q) stored_new;
        index_of = unfold new_execution in sym p;
        keyed = unfold new_execution in λ e. cc (n, (eq_iff request.idempotency_key "").1 e);
      }
      | inr (ne, o) ↦ old_index index id (v.indexed index id o)
    ]
  ]

  old_node : (index : String) (id : Uuid) → IsNode s index id → IsNode indexed_store index id
  old_node index id old = record {
    item = old.item;
    run = old.run;
    stored = kept id old.item old.stored;
    member = old.member;
    index_of = unfold put_execution in old.index_of;
  }

  new_node :
      (index : String) (id : Uuid)
      → lookup index indexed_store.nodes ≡ some id
      → IsNode indexed_store index id
  new_node index id h = elim (Option-cases request.pipeline_run_id) [
    | inl e ↦ old_node index id (v.noded index id (rw e at h))
    | inr (run, e) ↦ elim (Bool-cases (request.node_key == "")) [
      | inl t ↦ old_node index id (v.noded index id (ground arith))
      | inr n ↦ elim (node_after run e n h) [
        | inl (p, q) ↦ record {
          item = item;
          run = run;
          stored = rw (← q) stored_new;
          member = unfold new_execution in e;
          index_of = unfold new_execution put_execution in sym p;
        }
        | inr (ne, o) ↦ old_node index id (v.noded index id o)
      ]
    ]
  ]

  entry_after :
      {j : Uuid} {x : Execution}
      → lookup j indexed_store.executions ≡ some x
      → (new_uuid s ≡ j) × (item ≡ x) ⊎ (lookup j s.executions ≡ some x)
  unfolding new_execution put_execution
  entry_after {j} {x} h = elim (lookup_of_insert (new_uuid s) j item x s.executions h) [
    | inl both ↦ inl both
    | inr (ne, o) ↦ inr o
  ]

  indexed_store-IsValid : IsValid indexed_store
  indexed_store-IsValid = record {
    faithful = unfold put_execution in v.faithful;
    distinct = unfold put_execution in insert-Distinct _ _ s.executions v.distinct;
    at_key = λ j x h. elim (entry_after h) [
      | inl (p, q) ↦ unfold new_execution in ap (λ (y : Execution). y.id) (sym q) ∙ p
      | inr o ↦ v.at_key j x o
    ];
    consistent = λ j x h. elim (entry_after h) [
      | inl (p, q) ↦ rw (← q) (new_execution-IsConsistent request (new_uuid s) (now s))
      | inr o ↦ v.consistent j x o
    ];
    minted = λ j x h.
        unfold put_execution in
        elim (entry_after h) [
          | inl (p, q) ↦ (s.mints, omega arith, p)
          | inr o ↦ (let (k, lt, eq) = v.minted j x o in (k, omega arith, eq))
        ];
    indexed = new_index;
    noded = new_node;
  }

  pub insert_execution-IsValid : IsValid (insert_execution s request).1
  unfolding insert_execution
  insert_execution-IsValid =
      append_event-IsValid indexed_store item created "" indexed_store-IsValid

pub create_execution-IsValid :
    (request : CreateExecution) (s : MemoryStore)
    → IsValid s
    → IsValid (create_execution request s).1
unfolding create_execution
create_execution-IsValid request s v = elim (Bool-cases (request.task_name == "")) [
  | inl t ↦ rw t v
  | inr n ↦ rw n (elim (Option-cases (known_key s request)) [
    | inr (id, e) ↦ rw (e, create_execution) v
    | inl e ↦
        rw (e, create_execution)
          (elim (Option-cases (known_node s request)) [
            | inr (id, e) ↦ rw (e, create_execution) v
            | inl e ↦ rw (e, create_execution) (insert_execution-IsValid s request v)
          ])
  ])
]

pub new_memory_store-IsValid : (env : Env) → IsFaithful env → IsValid (new_memory_store env)
unfolding new_memory_store lookup Distinct
new_memory_store-IsValid env f = record {
  faithful = f;
  distinct = tt;
  at_key = λ id e h. cc;
  consistent = λ id e h. absurd (cc);
  minted = λ id e h. absurd (cc);
  indexed = λ index id h. absurd (cc);
  noded = λ index id h. absurd (cc);
}
