-- ===== src/Redis/Atomic.antt =====
-- What a run of watch (execution/redis/store.go) has committed, and the fence of a lease.
use ody.Redis.Tries.{abort_ne_send, not_sent, Reaches, watch-reached}
use ody.Execution.{
  running, status_beq_iff, nil_uuid, Uuid, Execution, Time, ok, Result-cases, err_ne_ok, Status,
  status_eq,
}
use ody.Base.{
  ℕ, String, List, ◌≡◌, some, inr, ◌≢◌, inl, ap, Option-cases, ◌∙◌, Bool, not, ◌==◌, ◌||◌, false,
  true, arith, Bool-cases, nat_beq_iff, nat_eq, ◌∷◌, [],
}
use ody.Redis.{done, Codec, Command, Plan, send, Server, committed, execution_key}
use ody.Redis.Transition.{Saved, saving, transition, save_transition}
use ody.Redis.Watch.{watch, read_execution, get_execution_tx, run}

pub saving-send :
    (codec : Codec) (event_id : Uuid) (status : Status) (at : Time) (saved : Saved)
    (sent : Execution) (commands : List Command)
    → saving codec event_id status at saved ≡ send sent commands
    → sent ≡ saved.item
unfolding saving
saving-send codec event_id status at saved sent commands h =
    elim (Result-cases (
      save_transition codec event_id saved.item status saved.kind saved.error_text at
        saved.keep_in_queue)) [
          | inl (c, e) ↦ (let q = rw (e, saving) at h in cc q)
          | inr (x, e) ↦ absurd (abort_ne_send (rw (e, saving) at h))
        ]

transition-send :
    (codec : Codec) (event_id token : Uuid) (mutate : Execution → Time → Saved) (at : Time)
    (item sent : Execution) (commands : List Command)
    → transition codec event_id token mutate at item ≡ send sent commands
    → (item.status ≡ running)
      × (item.lease_token ≡ token)
      × (token ≢ nil_uuid)
      × (sent ≡ (mutate item at).item)
unfolding transition
transition-send codec event_id token mutate at item sent commands h = elim (Bool-cases lost) [
  | inl y ↦ absurd (abort_ne_send (rw (y, transition) at h))
  | inr n ↦
      (let (a, b, c) =
          held (item.status == running) (token == nil_uuid) (item.lease_token == token) n in
        (
          (status_beq_iff item.status running).0 a,
          (nat_beq_iff item.lease_token token).0 c,
          (λ p. (let y = (nat_beq_iff token nil_uuid).1 p in cc (y, b))),
          saving-send codec event_id item.status at (mutate item at) sent commands
              (rw (n, transition) at h),
        ))
]
  where
    lost : Bool
    lost = not (item.status == running) || token == nil_uuid || not (item.lease_token == token)

    held : (a b c : Bool) → (not a || b || not c) ≡ false → (a ≡ true) × (b ≡ false) × (c ≡ true)
    held a b c h = ground arith

module _ {R : Type 0} (server : Server R) where
  -- The transaction that was committed: the state that it ran on, the record that it read there, and
  -- what it sent.
  pub record IsCommitted {A : Type 0} (codec : Codec) (id : Uuid)
      (decide : ℕ → Time → Execution → Plan A) (before : R) (sent : A) (after : R) : Type 0 where
    pub tries : ℕ
    pub at : Time
    pub state : R
    pub value : String
    pub item : Execution
    pub commands : List Command
    pub read : server.get (execution_key codec id) state ≡ ok (some value)
    pub parsed : codec.parse_execution value ≡ ok item
    pub reached : Reaches server before state
    pub planned : decide tries at item ≡ send sent commands
    pub executed : server.exec (execution_key codec id ∷ []) commands state ≡ (committed, after)

  module _ (codec : Codec) (id : Uuid) where
    read_execution-send :
        {A : Type 0} (decide : Execution → Plan A) (s : R) (sent : A) (commands : List Command)
        → read_execution server codec id decide s ≡ send sent commands
        → (value : String) × (item : Execution) × (server.get (execution_key codec id) s
            ≡ ok (some value))
          × (codec.parse_execution value ≡ ok item)
          × (decide item ≡ send sent commands)
    unfolding read_execution get_execution_tx
    read_execution-send decide s sent commands h =
        elim (Result-cases (server.get (execution_key codec id) s)) [
          | inr (e, g) ↦ absurd (abort_ne_send (rw (g, read_execution, get_execution_tx) at h))
          | inl (o, g) ↦ elim (Option-cases o) [
            | inl z ↦ absurd (abort_ne_send (rw (g, z, read_execution, get_execution_tx) at h))
            | inr (value, z) ↦ elim (Result-cases (codec.parse_execution value)) [
              | inr (e, p) ↦
                  absurd (abort_ne_send (rw (g, z, p, read_execution, get_execution_tx) at h))
              | inl (item, p) ↦
                  (value, item, g ∙ ap ok z, p, rw (g, z, p, read_execution, get_execution_tx) at h)
            ]
          ]
        ]

    pub watch-IsCommitted :
        {A : Type 0} (decide : ℕ → Time → Execution → Plan A) (at : Time) (n : ℕ) (s : R) (sent : A)
        (s' : R)
        → watch server
            (execution_key codec id ∷ [])
            n
            (λ k. read_execution server codec id (decide k at))
            s
          ≡ (ok (done sent), s')
        → IsCommitted codec id decide s sent s'
    watch-IsCommitted decide at n s sent s' h =
        let (m, t, commands, reached, p, f) =
          watch-reached server (execution_key codec id ∷ [])
            (λ k. read_execution server codec id (decide k at)) n s sent s' h in
        let (value, stored, g, parsed, planned) =
          read_execution-send (decide m at) t sent commands p in
        record {
          tries = m;
          at = at;
          state = t;
          value = value;
          item = stored;
          commands = commands;
          read = g;
          parsed = parsed;
          reached = reached;
          planned = planned;
          executed = f;
        }

    -- A run that returns a record has committed one transaction, planned on the record that the server
    -- held when the transaction ran.
    pub run-IsCommitted :
        {A : Type 0} (decide : ℕ → Time → Execution → Plan A) (s : R) (sent : A) (s' : R)
        → run server codec id decide s ≡ (ok (done sent), s')
        → IsCommitted codec id decide s sent s'
    unfolding run
    run-IsCommitted decide s sent s' h = elim (Result-cases (server.time s)) [
      | inr (e, t) ↦ absurd (not_sent err_ne_ok (rw (t, run) at h))
      | inl (at, t) ↦ watch-IsCommitted decide at 16 s sent s' (rw (t, run) at h)
    ]

    -- What a holder of a lease does, whose transaction was committed.
    pub record IsFenced (token : Uuid) (mutate : Execution → Time → Saved) (sent : Execution)
        (after : R) : Type 0 where
      pub state : R
      pub value : String
      pub item : Execution
      pub at : Time
      pub commands : List Command
      pub read : server.get (execution_key codec id) state ≡ ok (some value)
      pub parsed : codec.parse_execution value ≡ ok item
      pub is_running : item.status ≡ running
      pub is_held : item.lease_token ≡ token
      pub is_token : token ≢ nil_uuid
      pub written : sent ≡ (mutate item at).item
      pub executed : server.exec (execution_key codec id ∷ []) commands state ≡ (committed, after)

    -- Succeed, Retry and Fail of the Redis store write only over a record that is running under the
    -- caller's lease: if one returns a record, the server committed a transaction on a state in which
    -- the execution was running with that token, and the record is the mutation of the one read there.
    pub transition-IsFenced :
        (token : Uuid) (ids : ℕ → Uuid) (mutate : Execution → Time → Saved) (s : R)
        (sent : Execution) (s' : R)
        → run server codec id (λ n at. transition codec (ids n) token mutate at) s
          ≡ (ok (done sent), s')
        → IsFenced token mutate sent s'
    transition-IsFenced token ids mutate s sent s' h =
        let c = run-IsCommitted (λ n at. transition codec (ids n) token mutate at) s sent s' h in
        let (is_running, is_held, is_token, written) =
          transition-send codec (ids c.tries) token mutate c.at c.item sent c.commands c.planned in
        record {
          state = c.state;
          value = c.value;
          item = c.item;
          at = c.at;
          commands = c.commands;
          read = c.read;
          parsed = c.parsed;
          is_running = is_running;
          is_held = is_held;
          is_token = is_token;
          written = written;
          executed = c.executed;
        }
