-- ===== src/Redis/Watch.antt =====
-- execution/redis/store.go: watch, which tries a transaction again when another client has changed the
-- record, and getExecutionTx. `n` tries are left; each has its own results of `uuid.New`.
use ody.Redis.{done}
use ody.Execution.{Uuid, Result, Execution, Time, err, message, ok, not_found, status_eq}
use ody.Base.{ℕ, suc, some, none, zero, nat_eq, List, ◌∷◌, []}
use ody.Redis.{
  Codec, Key, Plan, send, abort, skip, Server, committed, tx_failed, broken, execution_key, Ended,
  unavailable, exists, existing,
}

module _ {R : Type 0} (server : Server R) where
  unfoldable pub watch : {A : Type 0} → List Key → ℕ → (ℕ → R → Plan A) → R → Result (Ended A) × R
  watch keys zero operation s = (err (message "redis transaction contention limit exceeded"), s)
  watch keys (suc n) operation s = elim (operation n s) [
    | abort e ↦ (err e, s)
    | skip ↦ (ok unavailable, s)
    | exists id ↦ (ok (existing id), s)
    | send a commands ↦
        (let (answer, s') = server.exec keys commands s in
          elim answer [
            | committed ↦ (ok (done a), s')
            | tx_failed ↦ watch keys n operation s'
            | broken e ↦ (err e, s')
          ])
  ]

  -- watch, of an operation that also assigns to a variable of the caller, which keeps its value from one
  -- try to the next.
  unfoldable pub watch_with :
      {A C : Type 0} → List Key → ℕ → (ℕ → C → R → Plan A × C) → C → R → Result (Ended A) × C × R
  watch_with keys zero operation c s =
      (err (message "redis transaction contention limit exceeded"), c, s)
  watch_with keys (suc n) operation c s =
      let (plan, c') = operation n c s in
      elim plan [
        | abort e ↦ (err e, c', s)
        | skip ↦ (ok unavailable, c', s)
        | exists id ↦ (ok (existing id), c', s)
        | send a commands ↦
            (let (answer, s') = server.exec keys commands s in
              elim answer [
                | committed ↦ (ok (done a), c', s')
                | tx_failed ↦ watch_with keys n operation c' s'
                | broken e ↦ (err e, c', s')
              ])
      ]

  -- getExecutionTx.
  unfoldable pub get_execution_tx : Codec → Uuid → R → Result Execution
  get_execution_tx codec id s = elim (server.get (execution_key codec id) s) [
    | err e ↦ err e
    | ok none ↦ err not_found
    | ok (some value) ↦ codec.parse_execution value
  ]

  -- What is planned on the record that getExecutionTx reads.
  unfoldable pub read_execution : {A : Type 0} → Codec → Uuid → (Execution → Plan A) → R → Plan A
  unfolding get_execution_tx
  read_execution codec id decide s = elim (get_execution_tx codec id s) [
    | err e ↦ abort e
    | ok item ↦ decide item
  ]

  -- An operation on one execution, from reading the time to the end of watch.
  unfoldable pub run :
      {A : Type 0} → Codec → Uuid → (ℕ → Time → Execution → Plan A) → R → Result (Ended A) × R
  unfolding watch read_execution
  run codec id decide s = elim (server.time s) [
    | err e ↦ (err e, s)
    | ok at ↦ watch (execution_key codec id ∷ []) 16 (λ n. read_execution codec id (decide n at)) s
  ]
