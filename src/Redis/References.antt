-- ===== src/Redis/References.antt =====
-- The references of a request (execution/redis/store.go): the keys that name its execution.
use ody.Redis.Create.{
  references, new_record, create_commands, idempotency_reference, set_all, node_reference,
  run_entry,
}
use ody.Execution.{CreateExecution, Uuid, Time, Execution}
use ody.Redis.{Codec, Key, idempotency_key, node_key, set, execution_key}
use ody.Base.{
  List, ◌≢◌, ◌≡◌, String, ◌==◌, ◌⊎◌, some, Member, false, Bool-cases, ◌∷◌, eq_iff, inl, Option, [],
  inr, none, here, string_eq, Option-cases, there, refl, sym, ◌∙◌, nat_beq_iff, some_inj,
  mem-append_right, mem_of_mem-append, ap, mem-append_left, nat_eq,
}

module _ (codec : Codec) where
  -- The key of an idempotency key or of a pipeline node that the request has.
  abbrev pub IsReference : CreateExecution → Key → Type 0
  IsReference request key =
      ((request.idempotency_key ≢ "")
        × (key ≡ idempotency_key codec request.task_name request.idempotency_key))
      ⊎ ((run : Uuid) × (request.pipeline_run_id ≡ some run)
          × (request.node_key ≢ "")
          × (key ≡ node_key codec run request.node_key))

  pub create_commands-stores :
      (item : Execution) (encoded event : String)
      → Member
          (set (execution_key codec item.id) encoded)
          (create_commands codec item encoded event)
  unfolding create_commands
  create_commands-stores item encoded event = here refl

  module _ (request : CreateExecution) (new : Uuid) (at : Time) where
    abbrev refs : List Key
    refs = references codec (new_record request new at)

    ne_of_beq : (a b : String) → (a == b) ≡ false → a ≢ b
    ne_of_beq a b n p = (let y = (eq_iff a b).1 p in cc (y, n))

    pub references-idempotency :
        (request.idempotency_key ≡ "")
        ⊎ Member (idempotency_key codec request.task_name request.idempotency_key) refs
    unfolding new_record
    references-idempotency = elim (Bool-cases (request.idempotency_key == "")) [
      | inl y ↦ inl ((eq_iff request.idempotency_key "").0 y)
      | inr n ↦ inr (rw n (here refl))
    ]

    pub references-node :
        (run : Uuid)
        → (request.pipeline_run_id ≢ some run)
          ⊎ ((request.node_key ≡ "") ⊎ Member (node_key codec run request.node_key) refs)
    unfolding new_record
    references-node run = elim (Option-cases request.pipeline_run_id) [
      | inl z ↦ inl (λ p. none_ne_some (sym z ∙ p))
      | inr (other, z) ↦ elim (Bool-cases (other == run)) [
        | inr f ↦ inl (λ p. (let y = (nat_beq_iff other run).1 (some_inj (sym z ∙ p)) in cc (y, f)))
        | inl t ↦ elim (Bool-cases (request.node_key == "")) [
          | inl y ↦ inr (inl ((eq_iff request.node_key "").0 y))
          | inr n ↦ inr (
              inr (
                mem-append_right (idempotency_reference codec (new_record request new at)) (
                  rw (z, n)
                    (here (
                      ap (λ r. node_key codec r request.node_key)
                        (sym ((nat_beq_iff other run).0 t)))))))
        ]
      ]
    ]
      where
        none_ne_some : {r : Uuid} → ◌≢◌ {A = Option Uuid} none (some r)
        none_ne_some q = cc

    pub references-IsReference : (key : Key) → Member key refs → IsReference request key
    unfolding new_record
    references-IsReference key m =
        elim (mem_of_mem-append (idempotency_reference codec (new_record request new at))
          (node_reference codec (new_record request new at)) m) [
            | inl i ↦ elim (Bool-cases (request.idempotency_key == "")) [
              | inl y ↦ elim (rw y at i) [ ]
              | inr n ↦ inl (ne_of_beq request.idempotency_key "" n, only (rw n at i))
            ]
            | inr i ↦ elim (Option-cases request.pipeline_run_id) [
              | inl z ↦ elim (rw z at i) [ ]
              | inr (run, z) ↦ elim (Bool-cases (request.node_key == "")) [
                | inl y ↦ elim (rw (z, y) at i) [ ]
                | inr n ↦ inr (run, z, ne_of_beq request.node_key "" n, only (rw (z, n) at i))
              ]
            ]
          ]
      where
        only : {a b : Key} → Member a (b ∷ []) → a ≡ b
        only (here e) = e
        only (there m) = elim m [ ]

    -- The commands of creation set each reference to the execution.
    set_all-mem :
        (keys : List Key) (value : String) {key : Key}
        → Member key keys
        → Member (set key value) (set_all keys value)
    set_all-mem [] value m = elim m [ ]
    set_all-mem (k ∷ keys) value (here e) = here (ap (λ x. set x value) e)
    set_all-mem (k ∷ keys) value (there m) = there (set_all-mem keys value m)

    pub create_commands-mem :
        (item : Execution) (encoded event : String) {key : Key}
        → Member key (references codec item)
        → Member (set key (codec.uuid_text item.id)) (create_commands codec item encoded event)
    unfolding create_commands
    create_commands-mem item encoded event m = there (
        there (
          there (
            there (
              there (
                there (
                  there (
                    mem-append_left (run_entry codec item)
                      (set_all-mem (references codec item) (codec.uuid_text item.id) m))))))))
