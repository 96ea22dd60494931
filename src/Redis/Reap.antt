-- ===== src/Redis/Reap.antt =====
-- execution/redis/store.go: ReapExpired and reapCandidate. `ids id n` is the identifier of the event of
-- one try of one candidate. A map's keys are a list, in the order in which they were added.
use ody.Execution.Errors.{is_not_found}
use ody.Redis.Encoding.{score}
use ody.Base.{
  Option, Bool, List, ℕ, ◌==◌, some, ◌∷◌, String, none, if◌then◌else◌, [], ◌&&◌, contains, not,
  ◌++◌, ltb, nat_eq,
}
use ody.Execution.{Time, Result, Execution, Uuid, err, ok, running, message, status_eq}
use ody.Redis.{
  existing, unavailable, done, zrem, leases_key, execution_key, send, abort, skip, exists, Plan,
  Server, Ended, Codec,
}
use ody.Redis.Watch.{watch_with, get_execution_tx}
use ody.Redis.Operations.{reap_candidate}

-- Whether the last attempt has run out of its lease, where reapCandidate assigns to runID.
unfoldable pub is_last_expired : Time → Execution → Bool
is_last_expired at item =
    item.status == running
    && not (ltb at item.lease_until)
    && not (ltb item.attempt item.max_attempts)

-- The plan without what it is for.
unfoldable pub forget : {A : Type 0} → Plan A → Plan (Unit {0})
forget (abort e) = abort e
forget skip = skip
forget (exists id) = exists id
forget (send a commands) = send tt commands

-- What reapCandidate makes of the end of watch, with the run that it was left with.
unfoldable pub reap_result : Result (Ended (Unit {0})) → Option Uuid → Result (Option Uuid)
reap_result (err e) run = err e
reap_result (ok unavailable) run = ok none
reap_result (ok (existing id)) run = err (message "redis execution reference already exists")
reap_result (ok (done a)) run = ok run

-- `if runID != nil { runs[*runID] = struct{}{} }`
unfoldable pub add_run : Option Uuid → List Uuid → List Uuid
add_run none runs = runs
add_run (some run) runs = if contains runs run then runs else runs ++ run ∷ []

module _ {R : Type 0} (server : Server R) (codec : Codec) (ids : Uuid → ℕ → Uuid) (at : Time) where
  -- One try: the plan, and the value of runID after it.
  unfoldable pub reap_try : Uuid → ℕ → Option Uuid → R → Plan (Unit {0}) × Option Uuid
  unfolding get_execution_tx is_not_found reap_candidate is_last_expired forget
  reap_try id n run s = elim (get_execution_tx server codec id s) [
    | err e ↦ (
      if is_not_found e
          then send tt (zrem (leases_key codec) (codec.uuid_text id) ∷ [])
          else abort e,
      run,
    )
    | ok item ↦ (
      forget (reap_candidate codec (ids id n) at item),
      if is_last_expired at item then item.pipeline_run_id else run,
    )
  ]

  unfoldable pub reap_one : Uuid → R → Result (Option Uuid) × R
  unfolding watch_with reap_try reap_result
  reap_one id s =
      let (r, run, s') = watch_with server (execution_key codec id ∷ []) 16 (reap_try id) none s in
      (reap_result r run, s')

  -- The loop over the members of the leases.
  unfoldable pub reap_each : List String → List Uuid → R → Result (List Uuid) × R
  unfolding reap_one add_run
  reap_each [] runs s = (ok runs, s)
  reap_each (value ∷ values) runs s = elim (codec.parse_uuid value) [
    | err e ↦ (err e, s)
    | ok id ↦
        (let (r, s') = reap_one id s in
          elim r [ err e ↦ (err e, s') | ok run ↦ reap_each values (add_run run runs) s' ])
  ]

module _ {R : Type 0} (server : Server R) (codec : Codec) where
  unfoldable pub reap_expired : (Uuid → ℕ → Uuid) → R → Result (List Uuid) × R
  unfolding reap_each score
  reap_expired ids s = elim (server.time s) [
    | err e ↦ (err e, s)
    | ok at ↦ elim (server.zrange_by_score (leases_key codec) (score at) none s) [
      | err e ↦ (err e, s)
      | ok values ↦ reap_each server codec ids at values [] s
    ]
  ]
