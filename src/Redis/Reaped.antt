-- ===== src/Redis/Reaped.antt =====
-- The runs that ReapExpired (execution/redis/store.go) returns.
use ody.Redis.Assigned.{watch_with_inv}
use ody.Redis.Encoding.{score}
use ody.Redis.Tries.{Reaches, stay, Reaches-trans, by_exec}
use ody.Execution.{Time, Uuid, Execution, ok, Result-cases, Result, err_ne_ok, ok_inj, err, running}
use ody.Base.{
  List, ℕ, String, Option, All, ◌≡◌, some, true, inr, Bool-cases, subst, inl, contains,
  Option-cases, ◌∷◌, All-append, ◌∙◌, [], ap, none, ◌≢◌, nat_eq, refl, ◌≤◌, arith,
}
use ody.Redis.{
  Server, Codec, Key, execution_key, Ended, leases_key, existing, done, unavailable, Command,
}
use ody.Redis.Reap.{
  is_last_expired, reap_try, reap_one, reap_each, reap_expired, reap_result, add_run,
}
use ody.Redis.Watch.{watch_with, get_execution_tx}

is_last_expired-parts :
    (at : Time) (item : Execution)
    → is_last_expired at item ≡ true
    → (item.status ≡ running) × (item.lease_until ≤ at) × (item.max_attempts ≤ item.attempt)
unfolding is_last_expired
is_last_expired-parts at item h = (ground arith, ground arith, ground arith)

module _ {R : Type 0} (server : Server R) where
  module _ (codec : Codec) where
    -- The run of an execution that the server held in a state of the call, which goes from one state to
    -- another: running at its last attempt under a lease that had run out.
    pub record IsReported (before end : R) (at : Time) (run : Uuid) : Type 0 where
      pub id : Uuid
      pub state : R
      pub value : String
      pub item : Execution
      pub reached : Reaches server before state
      pub read : server.get (execution_key codec id) state ≡ ok (some value)
      pub parsed : codec.parse_execution value ≡ ok item
      pub is_running : item.status ≡ running
      pub is_over : item.lease_until ≤ at
      pub is_last : item.max_attempts ≤ item.attempt
      pub of_run : item.pipeline_run_id ≡ some run
      pub followed : Reaches server state end

    IsReported-before :
        {before end last : R} {at : Time} {run : Uuid}
        → Reaches server end last
        → IsReported before end at run
        → IsReported before last at run
    IsReported-before p i = record {
      id = i.id;
      state = i.state;
      value = i.value;
      item = i.item;
      reached = i.reached;
      read = i.read;
      parsed = i.parsed;
      is_running = i.is_running;
      is_over = i.is_over;
      is_last = i.is_last;
      of_run = i.of_run;
      followed = Reaches-trans server i.followed p;
    }

    get_execution_tx-ok :
        (id : Uuid) (s : R) (item : Execution)
        → get_execution_tx server codec id s ≡ ok item
        → (value : String) × (server.get (execution_key codec id) s ≡ ok (some value))
          × (codec.parse_execution value ≡ ok item)
    unfolding get_execution_tx
    get_execution_tx-ok id s item h = elim (Result-cases (server.get (execution_key codec id) s)) [
      | inr (e, g) ↦ absurd (err_ne_ok (rw (g, get_execution_tx) at h))
      | inl (o, g) ↦ elim (Option-cases o) [
        | inl z ↦ absurd (err_ne_ok (rw (g, z, get_execution_tx) at h))
        | inr (value, z) ↦ (value, g ∙ ap ok z, rw (g, z, get_execution_tx) at h)
      ]
    ]

    module _ (ids : Uuid → ℕ → Uuid) (at : Time) (before : R) where
      -- In a state of the call, what the variable names was reported.
      abbrev Reported : Option Uuid → R → Type 0
      Reported run s =
          Reaches server before s × ((r : Uuid) → run ≡ some r → IsReported before s at r)

      Reported-exec :
          (keys : List Key) (run : Option Uuid) (s : R) (commands : List Command)
          → Reported run s
          → Reported run (server.exec keys commands s).1
      Reported-exec keys run s commands (p, h) =
          let q : Reaches server s (server.exec keys commands s).1 = by_exec keys commands stay in
          (Reaches-trans server p q, (λ r e. IsReported-before q (h r e)))

      reap_try-Reported :
          (id : Uuid) (n : ℕ) (run : Option Uuid) (s : R)
          → Reported run s
          → Reported (reap_try server codec ids at id n run s).1 s
      unfolding reap_try
      reap_try-Reported id n run s h = elim (Result-cases (get_execution_tx server codec id s)) [
        | inr (e, g) ↦ rw (g, reap_try) h
        | inl (item, g) ↦ elim (Bool-cases (is_last_expired at item)) [
          | inr f ↦ rw (g, f, reap_try) h
          | inl y ↦
              rw (g, y, reap_try)
                (
                  h.0,
                  (λ r q.
                      (let (value, read, parsed) = get_execution_tx-ok id s item g in
                        let (is_running, is_over, is_last) = is_last_expired-parts at item y in
                        record {
                          id = id;
                          state = s;
                          value = value;
                          item = item;
                          reached = h.0;
                          read = read;
                          parsed = parsed;
                          is_running = is_running;
                          is_over = is_over;
                          is_last = is_last;
                          of_run = q;
                          followed = stay;
                        })),
                )
        ]
      ]

      none_ne_some : {r : Uuid} → ◌≢◌ {A = Option Uuid} none (some r)
      none_ne_some q = cc

      -- What the variable holds at the end of the tries.
      watched-Reported :
          (id : Uuid) (s : R)
          → Reaches server before s
          → Reported
              (watch_with server
                (execution_key codec id ∷ [])
                16
                (reap_try server codec ids at id)
                none
                s).1
              (watch_with server
                (execution_key codec id ∷ [])
                16
                (reap_try server codec ids at id)
                none
                s).2
      watched-Reported id s p =
          watch_with_inv server Reported (execution_key codec id ∷ []) 16
            (reap_try server codec ids at id) none s (λ k c t. reap_try-Reported id k c t)
            (λ c t commands. Reported-exec (execution_key codec id ∷ []) c t commands)
            (p, (λ r q. absurd (none_ne_some q)))

      reap_one-Reaches :
          (id : Uuid) (s : R)
          → Reaches server before s
          → Reaches server before (reap_one server codec ids at id s).1
      unfolding reap_one
      reap_one-Reaches id s p = (watched-Reported id s p).0

      reap_one-Reported :
          (id : Uuid) (s : R) (run : Option Uuid)
          → Reaches server before s
          → (reap_one server codec ids at id s).0 ≡ ok run
          → Reported run (reap_one server codec ids at id s).1
      unfolding reap_one reap_result
      reap_one-Reported id s run p h =
          let (q, k) = watched-Reported id s p in
          reap_result-Reported watched.0 watched.1 run watched.2 q k h
        where
          watched : Result (Ended (Unit {0})) × Option Uuid × R
          watched =
              watch_with server (execution_key codec id ∷ []) 16 (reap_try server codec ids at id)
                none s

          reap_result-Reported :
              (r : Result (Ended (Unit {0}))) (c run : Option Uuid) (t : R)
              → Reaches server before t
              → ((r : Uuid) → c ≡ some r → IsReported before t at r)
              → reap_result r c ≡ ok run
              → Reported run t
          reap_result-Reported (err e) c run t p k q = absurd (err_ne_ok q)
          reap_result-Reported (ok unavailable) c run t p k q =
              (p, (λ r z. absurd (none_ne_some (ok_inj q ∙ z))))
          reap_result-Reported (ok (existing id)) c run t p k q = absurd (err_ne_ok q)
          reap_result-Reported (ok (done a)) c run t p k q = (p, (λ r z. k r (ok_inj q ∙ z)))

      add_run-All :
          (run : Option Uuid) (runs : List Uuid) (s : R)
          → Reported run s
          → All (IsReported before s at) runs
          → All (IsReported before s at) (add_run run runs)
      unfolding add_run
      add_run-All none runs s p all = all
      add_run-All (some run) runs s p all = elim (Bool-cases (contains runs run)) [
        | inl y ↦ rw (y, add_run) all
        | inr n ↦
            rw (n, add_run)
              (All-append (IsReported before s at) runs (run ∷ []) all (p.1 run refl, tt))
      ]

      -- What was reported before a step of the call is reported after it.
      All-later :
          (s t : R) (runs : List Uuid)
          → Reaches server s t
          → All (IsReported before s at) runs
          → All (IsReported before t at) runs
      All-later s t [] p all = tt
      All-later s t (run ∷ runs) p all = (IsReported-before p all.0, All-later s t runs p all.1)

    module _ (ids : Uuid → ℕ → Uuid) (at : Time) (before : R) where
      reap_each-All :
          (members : List String) (runs : List Uuid) (s : R) (found : List Uuid) (s' : R)
          → Reaches server before s
          → All (IsReported before s at) runs
          → reap_each server codec ids at members runs s ≡ (ok found, s')
          → All (IsReported before s' at) found
      unfolding reap_each
      reap_each-All [] runs s found s' p all h =
          subst (λ t. All (IsReported before t at) found) (ap (λ x. x.1) h)
            (subst (All (IsReported before s at)) (ok_inj (ap (λ x. x.0) h)) all)
      reap_each-All (value ∷ members) runs s found s' p all h =
          elim (Result-cases (codec.parse_uuid value)) [
            | inr (e, u) ↦ absurd (err_ne_ok (ap (λ x. x.0) (rw (u, reap_each) at h)))
            | inl (id, u) ↦
                (let one = reap_one server codec ids at id s in
                  elim (Result-cases one.0) [
                    | inr (e, q) ↦ absurd (err_ne_ok (ap (λ x. x.0) (rw (u, q, reap_each) at h)))
                    | inl (run, q) ↦
                        (let reported = reap_one-Reported ids at before id s run p q in
                          reap_each-All members (add_run run runs) one.1 found s' reported.0
                            (add_run-All ids at before run runs one.1 reported (
                              All-later ids at before s one.1 runs
                                (reap_one-Reaches ids at s id s stay) all))
                            (rw (u, q, reap_each) at h))
                  ])
          ]

    -- Each run that ReapExpired of the Redis store returns is the run of an execution that the server
    -- held in a state between the start and the end of the call, running, with no attempt left, and with
    -- a lease that had ended at the server's time of the call.
    pub reap_expired-All :
        (ids : Uuid → ℕ → Uuid) (s : R) (runs : List Uuid) (s' : R)
        → reap_expired server codec ids s ≡ (ok runs, s')
        → (at : Time) × (server.time s ≡ ok at) × All (IsReported s s' at) runs
    unfolding reap_expired
    reap_expired-All ids s runs s' h = elim (Result-cases (server.time s)) [
      | inr (e, t) ↦ absurd (err_ne_ok (ap (λ x. x.0) (rw (t, reap_expired) at h)))
      | inl (at, t) ↦
          elim (Result-cases (server.zrange_by_score (leases_key codec) (score at) none s)) [
            | inr (e, l) ↦ absurd (err_ne_ok (ap (λ x. x.0) (rw (t, l, reap_expired) at h)))
            | inl (members, l) ↦ (
              at,
              t,
              reap_each-All ids at s members [] s runs s' stay tt (rw (t, l, reap_expired) at h),
            )
          ]
    ]
