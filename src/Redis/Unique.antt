-- ===== src/Redis/Unique.antt =====
-- CreateExecution (execution/redis/store.go) and the references of its request.
use ody.Redis.Found.{IsUnset, find_reference-some, find_reference-none}
use ody.Redis.References.{
  IsReference, references-IsReference, create_commands-mem, create_commands-stores,
  references-idempotency, references-node,
}
use ody.Redis.Watch.{watch}
use ody.Redis.Transition.{encode_event}
use ody.Redis.Tries.{abort_ne_send, exists_ne_send, send_inj, watch-existing, watch-done}
use ody.Execution.{
  created, CreateExecution, Uuid, ok, Execution, Time, Result, Result-cases, err_ne_ok, Error,
  ok_inj, err,
}
use ody.Base.{
  List, ◌≡◌, String, none, Member, some, All, ◌≢◌, inr, inl, Option-cases, ◌∙◌, ap, refl, sym, ℕ,
  Bool-cases, ◌==◌, string_eq, subst, All-mem, ◌⊎◌,
}
use ody.Redis.{
  Server, Codec, Key, committed, Command, exists, send, Plan, abort, Ended, existing, done,
  unavailable, set, execution_key, idempotency_key, node_key,
}
use ody.Redis.Creation.{find_reference, create_try, create_execution, create_result}
use ody.Redis.Create.{new_record, references, create_commands}
use ody.Redis.Read.{get_execution}

module _ {R : Type 0} (server : Server R) (codec : Codec) where
  -- The execution that a key of the request names.
  pub record IsReferred (request : CreateExecution) (state : R) (id : Uuid) : Type 0 where
    pub key : Key
    pub value : String
    pub reference : IsReference codec request key
    pub read : server.get key state ≡ ok (some value)
    pub parsed : codec.parse_uuid value ≡ ok id

  -- A transaction takes a key for an execution: it watches it, found it unset, and sets it.
  pub record Takes (state : R) (watched : List Key) (commands : List Command) (id : Uuid)
      (key : Key) : Type 0 where
    pub unset : server.get key state ≡ ok none
    pub is_watched : Member key watched
    pub is_set : Member (set key (codec.uuid_text id)) commands

  -- A committed transaction that wrote the execution, and took for it the keys that the request has.
  pub record IsInserted (request : CreateExecution) (item : Execution) (after : R) : Type 0 where
    pub state : R
    pub watched : List Key
    pub commands : List Command
    pub encoded : String
    pub event : String
    pub json : codec.execution_json item ≡ ok encoded
    pub is_stored : Member (set (execution_key codec item.id) encoded) commands
    pub once_per_key :
        (request.idempotency_key ≡ "")
        ⊎ Takes state watched commands item.id
            (idempotency_key codec request.task_name request.idempotency_key)
    pub once_per_node :
        (run : Uuid)
        → (request.pipeline_run_id ≢ some run)
          ⊎ ((request.node_key ≡ "")
              ⊎ Takes state watched commands item.id (node_key codec run request.node_key))
    pub written : commands ≡ create_commands codec item encoded event
    pub executed : server.exec watched commands state ≡ (committed, after)

  -- What CreateExecution returns at a time: the execution that a reference names, or the new one.
  pub data IsCreated (request : CreateExecution) (new : Uuid) (at : Time) (item : Execution)
      (after : R) : Type 0 where
    referred :
        (id : Uuid)
        → IsReferred request after id
        → get_execution server codec id after ≡ ok item
        → IsCreated request new at item after
    inserted :
        item ≡ new_record request new at
        → IsInserted request item after
        → IsCreated request new at item after

  create_try-send :
      (item sent : Execution) (event_id : Uuid) (state : R) (commands : List Command)
      → create_try server codec item event_id state ≡ send sent commands
      → (item ≡ sent)
        × All (IsUnset server state) (references codec item)
        × ((encoded : String) × (event : String) × (codec.execution_json item ≡ ok encoded)
            × (commands ≡ create_commands codec item encoded event))
  unfolding create_try
  create_try-send item sent event_id state commands h =
      elim (Result-cases (find_reference server codec (references codec item) state)) [
        | inr (e, g) ↦ absurd (abort_ne_send (rw (g, create_try) at h))
        | inl (o, g) ↦ elim (Option-cases o) [
          | inr (id, z) ↦ absurd (exists_ne_send (rw (g, z, create_try) at h))
          | inl z ↦ elim (Result-cases (codec.execution_json item)) [
            | inr (e, j) ↦ absurd (abort_ne_send (rw (g, z, j, create_try) at h))
            | inl (encoded, j) ↦
                elim (Result-cases (encode_event codec event_id item created "" item.created_at)) [
                  | inr (e, v) ↦ absurd (abort_ne_send (rw (g, z, j, v, create_try) at h))
                  | inl (event, v) ↦
                      (let (a, b) = send_inj (rw (g, z, j, v, create_try) at h) in
                        (
                          a,
                          find_reference-none server codec (references codec item) state
                              (g ∙ ap ok z),
                          (encoded, event, j, sym b),
                        ))
                ]
          ]
        ]
      ]

  create_try-exists :
      (item : Execution) (event_id : Uuid) (state : R) (id : Uuid)
      → create_try server codec item event_id state ≡ exists id
      → find_reference server codec (references codec item) state ≡ ok (some id)
  unfolding create_try
  create_try-exists item event_id state id h =
      elim (Result-cases (find_reference server codec (references codec item) state)) [
        | inr (e, g) ↦ absurd (abort_ne_exists (rw (g, create_try) at h))
        | inl (o, g) ↦ elim (Option-cases o) [
          | inr (found, z) ↦ g ∙ ap ok (z ∙ ap some (exists_inj (rw (g, z, create_try) at h)))
          | inl z ↦ elim (Result-cases (codec.execution_json item)) [
            | inr (e, j) ↦ absurd (abort_ne_exists (rw (g, z, j, create_try) at h))
            | inl (encoded, j) ↦
                elim (Result-cases (encode_event codec event_id item created "" item.created_at)) [
                  | inr (e, v) ↦ absurd (abort_ne_exists (rw (g, z, j, v, create_try) at h))
                  | inl (event, v) ↦
                      absurd (exists_ne_send (sym (rw (g, z, j, v, create_try) at h)))
                ]
          ]
        ]
      ]
    where
      abort_ne_exists : {e : Error} → ◌≢◌ {A = Plan Execution} (abort e) (exists id)
      abort_ne_exists q = cc

      exists_inj : {a b : Uuid} → ◌≡◌ {A = Plan Execution} (exists a) (exists b) → a ≡ b
      exists_inj q = cc

  new_record-IsInserted :
      (request : CreateExecution) (new : Uuid) (at : Time) (s' t : R) (commands : List Command)
      (encoded event : String)
      → All (IsUnset server t) (references codec (new_record request new at))
      → codec.execution_json (new_record request new at) ≡ ok encoded
      → commands ≡ create_commands codec (new_record request new at) encoded event
      → server.exec (references codec (new_record request new at)) commands t ≡ (committed, s')
      → IsInserted request (new_record request new at) s'
  new_record-IsInserted request new at s' t commands encoded event unset json c f = record {
    state = t;
    watched = references codec (new_record request new at);
    commands = commands;
    encoded = encoded;
    event = event;
    json = json;
    is_stored =
        subst (Member _) (sym c)
          (create_commands-stores codec (new_record request new at) encoded event);
    once_per_key = elim (references-idempotency codec request new at) [
      | inl e ↦ inl e
      | inr m ↦ inr (takes m)
    ];
    once_per_node = λ run. elim (references-node codec request new at run) [
      | inl n ↦ inl n
      | inr (inl e) ↦ inr (inl e)
      | inr (inr m) ↦ inr (inr (takes m))
    ];
    written = c;
    executed = f;
  }
    where
      takes :
          {key : Key}
          → Member key (references codec (new_record request new at))
          → Takes t
              (references codec (new_record request new at))
              commands
              (new_record request new at).id
              key
      takes m = record {
        unset = All-mem (IsUnset server t) unset m;
        is_watched = m;
        is_set =
            subst (Member _) (sym c) (
              create_commands-mem codec request new at (new_record request new at) encoded event m);
      }

  create_end :
      (request : CreateExecution) (new : Uuid) (events : ℕ → Uuid) (at : Time) (s : R)
      (item : Execution) (s' : R) (r : Result (Ended Execution))
      → watch server
          (references codec (new_record request new at))
          16
          (λ n. create_try server codec (new_record request new at) (events n))
          s
        ≡ (r, s')
      → create_result server codec r s' ≡ ok item
      → IsCreated request new at item s'
  unfolding create_result
  create_end request new events at s item s' (err e) w h = absurd (err_ne_ok h)
  create_end request new events at s item s' (ok unavailable) w h = absurd (err_ne_ok h)
  create_end request new events at s item s' (ok (existing id)) w h =
      let (m, p) =
        watch-existing server (references codec (new_record request new at))
          (λ n. create_try server codec (new_record request new at) (events n)) 16 s id s' w in
      let n =
        find_reference-some server codec (references codec (new_record request new at)) s' id
          (create_try-exists (new_record request new at) (events m) s' id p) in
      referred id
        (record {
          key = n.key;
          value = n.value;
          reference = references-IsReference codec request new at n.key n.member;
          read = n.read;
          parsed = n.parsed;
        })
        h
  create_end request new events at s item s' (ok (done sent)) w h =
      let (m, t, commands, p, f) =
        watch-done server (references codec (new_record request new at))
          (λ n. create_try server codec (new_record request new at) (events n)) 16 s sent s' w in
      let (a, unset, (encoded, event, json, c)) =
        create_try-send (new_record request new at) sent (events m) t commands p in
      let q = a ∙ ok_inj h in
      inserted (sym q) (
        subst (λ x. IsInserted request x s') q
          (new_record-IsInserted request new at s' t commands encoded event unset json c f))

  -- CreateExecution of the Redis store creates one execution for an idempotency key and one for a
  -- pipeline node: what it returns without an error is either the execution that the idempotency key or
  -- the node of the request names in the state of the server, as it is read there, or the new record. The
  -- transaction that wrote the new record was committed under WATCH of the request's idempotency key and
  -- node, where they are not empty, on a state where neither named an execution, and it set both.
  pub create_execution-IsCreated :
      (request : CreateExecution) (new : Uuid) (events : ℕ → Uuid) (s : R) (item : Execution)
      (s' : R)
      → create_execution server codec request new events s ≡ (ok item, s')
      → (at : Time) × (server.time s ≡ ok at) × IsCreated request new at item s'
  unfolding create_execution
  create_execution-IsCreated request new events s item s' h =
      elim (Bool-cases (request.task_name == "")) [
        | inl y ↦ absurd (err_ne_ok (ap (λ r. r.0) (rw (y, create_execution) at h)))
        | inr n ↦ elim (Result-cases (server.time s)) [
          | inr (e, t) ↦ absurd (err_ne_ok (ap (λ r. r.0) (rw (n, t, create_execution) at h)))
          | inl (at, t) ↦
              (let q = rw (n, t, create_execution) at h in
                (
                  at,
                  t,
                  subst (IsCreated request new at item) (ap (λ r. r.1) q)
                      (create_end request new events at s item _ _ refl (ap (λ r. r.0) q)),
                ))
        ]
      ]
