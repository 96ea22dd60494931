-- ===== src/Worker/Tracking.antt =====
-- The health of a worker (worker/worker.go) and the steps of a delivery, which leave it alone.
use ody.Execution.Errors.{error_text, is_permanent, retry_delay}
use ody.Base.{
  ◌∷◌, ℕ, ◌≡◌, ap, Option, suc, ◌∙◌, arith, sym, zero, some, ℤ, String, List, Bool-cases, inl, refl,
  none, inr, Option-cases, [],
}
use ody.Worker.{
  Queue, Advancer, Options, HealthStatus, ready, degraded, Worker, healthy, report, with_store,
  transition,
}
use ody.Worker.Resolve.{
  Wakeup, advance, settled, reload, retry_later, resolve_error, resolve, supervise, worker_done,
  handler_done, handler_result, heartbeat_tick, retry_policy,
}
use ody.Task.Registry
use ody.Execution.{
  Execution, Error, Result, ok, err, Status, failed, Result-cases, Duration, succeeded,
}

abbrev pub status_of : ℕ → HealthStatus
status_of zero = ready
status_of (suc n) = degraded

module _ {S : Type 0} where
  -- The health shows the loop's consecutive failures, and is degraded exactly if there are any.
  pub record IsTracking (w : Worker S) : Type 0 where
    pub counted : w.health.consecutive_failures ≡ w.failures
    pub shown : w.health.status ≡ status_of w.failures

  -- The steps of a delivery leave the health alone.
  pub record SameHealth (w w' : Worker S) : Type 0 where
    pub same_health : w'.health ≡ w.health
    pub same_failures : w'.failures ≡ w.failures

  pub SameHealth-IsTracking : {w w' : Worker S} → SameHealth w w' → IsTracking w → IsTracking w'
  SameHealth-IsTracking h t = record {
    counted = ap (λ k. k.consecutive_failures) h.same_health ∙ t.counted ∙ sym h.same_failures;
    shown = ap (λ k. k.status) h.same_health ∙ t.shown ∙ ap status_of (sym h.same_failures);
  }

  pub healthy-IsTracking : (w : Worker S) → IsTracking (healthy w)
  unfolding healthy
  healthy-IsTracking w = record { counted = refl; shown = refl }

  module _ (queue : Queue S) (advancer : Option (Advancer S)) where
    advance-SameHealth :
        (item : Execution) (w : Worker S) → SameHealth w (advance queue advancer item w)
    unfolding advance
    advance-SameHealth item w = ground arith

    settled-SameHealth :
        (item : Execution) (status : Status) (cause : Option Error)
        (outcome : Result (Unit {0}) × S) (w : Worker S)
        → SameHealth w (settled queue advancer item status cause outcome w)
    settled-SameHealth item status cause (ok u, s) w =
        let a = advance-SameHealth item (report (transition item status cause) (with_store s w)) in
        record { same_health = a.same_health; same_failures = a.same_failures }
    settled-SameHealth item status cause (err e, s) w = record {
      same_health = refl;
      same_failures = refl;
    }

    reload-SameHealth :
        (item : Execution) (cause : Error) (w : Worker S)
        → SameHealth w (reload queue advancer item cause w)
    unfolding reload
    reload-SameHealth item cause w = ground (
      arith,
      λ (e : Execution). advance-SameHealth e (report (transition e e.status (some cause)) w),
    )

    retry_later-SameHealth :
        (item : Execution) (cause : Error) (delay : Duration) (w : Worker S)
        → SameHealth w (retry_later queue advancer item cause delay w)
    unfolding retry_later
    retry_later-SameHealth item cause delay w =
        let s = (queue.retry item.id item.lease_token (error_text cause) delay w.store).1 in
        let a = reload-SameHealth item cause (with_store s w) in ground (arith, a)

    -- A crash aside, the health is as before.
    abbrev pub Keeps : Worker S → Option (Worker S) → Type 0
    Keeps w none = Unit
    Keeps w (some w') = SameHealth w w'

    resolve_error-Keeps :
        (item : Execution) (cause : Error) (f : Option (Option (ℤ → Duration))) (w : Worker S)
        → Keeps w (resolve_error queue advancer item cause f w)
    unfolding resolve_error
    resolve_error-Keeps item cause none w =
        settled-SameHealth item failed (some cause)
          (queue.fail item.id item.lease_token (error_text cause) w.store) w
    resolve_error-Keeps item cause (some f) w = elim (Bool-cases (is_permanent cause)) [
      | inl t ↦
          rw (t, resolve_error)
            (settled-SameHealth item failed (some cause)
              (queue.fail item.id item.lease_token (error_text cause) w.store) w)
      | inr n ↦ elim (Option-cases (retry_delay cause)) [
        | inr (delay, d) ↦ rw (n, d, resolve_error) (retry_later-SameHealth item cause delay w)
        | inl d ↦ elim f as (λ f. Keeps w (resolve_error queue advancer item cause (some f) w)) [
          | none ↦ rw (n, d, resolve_error) tt
          | some g ↦ rw (n, d, resolve_error) (retry_later-SameHealth item cause _ w)
        ]
      ]
    ]

    resolve-Keeps :
        (item : Execution) (outcome : Result String) (f : Option (Option (ℤ → Duration)))
        (w : Worker S)
        → Keeps w (resolve queue advancer item outcome f w)
    unfolding resolve
    resolve-Keeps item (ok output) f w =
        settled-SameHealth item succeeded none
          (queue.succeed item.id item.lease_token output w.store) w
    resolve-Keeps item (err cause) f w = resolve_error-Keeps item cause f w

    Keeps-with_store :
        (s : S) (w : Worker S) (r : Option (Worker S)) → Keeps (with_store s w) r → Keeps w r
    Keeps-with_store s w none h = tt
    Keeps-with_store s w (some w') h = record {
      same_health = h.same_health;
      same_failures = h.same_failures;
    }

    pub supervise-Keeps :
        (options : Options) (registry : Registry.Registry) (item : Execution)
        (wakeups : List Wakeup) (w : Worker S)
        → Keeps w (supervise queue advancer options registry item wakeups w)
    unfolding supervise
    supervise-Keeps options registry item [] w = record { same_health = refl; same_failures = refl }
    supervise-Keeps options registry item (worker_done ∷ rest) w = record {
      same_health = refl;
      same_failures = refl;
    }
    supervise-Keeps options registry item (handler_done e ∷ rest) w =
        resolve-Keeps item (err e) (retry_policy registry item) w
    supervise-Keeps options registry item (handler_result ∷ rest) w =
        resolve-Keeps item (Registry.execute registry item) (retry_policy registry item) w
    supervise-Keeps options registry item (heartbeat_tick ∷ rest) w =
        let beat = queue.heartbeat item.id item.lease_token options.lease_duration w.store in
        elim (Result-cases beat.0) [
          | inl (u, h) ↦
              rw (h, supervise)
                (Keeps-with_store beat.1 w _
                  (supervise-Keeps options registry item rest (with_store beat.1 w)))
          | inr (e, h) ↦ rw (h, supervise) (record { same_health = refl; same_failures = refl })
        ]
