-- ===== src/Worker/Failures.antt =====
-- The health of a worker and the limit of failures (worker/worker.go), over a whole polling loop that
-- alone has the health, as the one loop of a worker with Concurrency 1.
use ody.Base.{
  ◌∷◌, ◌≡◌, Option, arith, List, Bool-cases, inl, inr, Option-cases, [], true, if◌then◌else◌, Bool,
  false, subst, pos, none, ℕ, ℤ, suc, not, ◌≤◌, is_nonpos, ◌&&◌, leb, to_nat, negsuc, zero, refl,
}
use ody.Worker.{
  Queue, Advancer, Options, World, Operation, Worker, healthy, note_failure, is_fatal,
  infrastructure_failure, with_store, after_read, op_reconcile, op_claim, op_advance, op_reap,
}
use ody.Worker.Resolve.{Wakeup, supervise}
use ody.Worker.Loop.{
  Flow, going, ended, halted, crashed, wait, advance_reaped, idle, reconcile, deliver, claim_next,
  advance_runs, after_reap, round, loop,
}
use ody.Task.Registry
use ody.Execution.{Uuid, Execution, Error, Result, Result-cases, wrapped}
use ody.Worker.Tracking.{
  IsTracking, SameHealth-IsTracking, healthy-IsTracking, Keeps, supervise-Keeps,
}

-- The limit of consecutive failures is set, and they have reached it.
abbrev pub AtLimit : Options → ℕ → Type 0
AtLimit options failures =
    (k : ℕ) × (options.max_consecutive_errors ≡ pos (suc k)) × (suc k ≤ failures)

reached_limit :
    (limit : ℤ) (failures : ℕ)
    → (not (is_nonpos limit) && leb (to_nat limit) failures) ≡ true
    → (k : ℕ) × (limit ≡ pos (suc k)) × (suc k ≤ failures)
reached_limit (pos zero) failures h = absurd (cc)
reached_limit (pos (suc k)) failures h = (k, refl, ground arith)
reached_limit (negsuc k) failures h = absurd (cc)

is_fatal-AtLimit :
    (options : Options) (failures : ℕ) → is_fatal options failures ≡ true → AtLimit options failures
is_fatal-AtLimit options failures h = reached_limit options.max_consecutive_errors failures h

module _ {S : Type 0} where
  -- How a part of a round may end: the health is tracked, and only the limit of failures, where it is set
  -- and reached, halts the loop. Of a crash holds what is given.
  abbrev pub EndsAs : Type 0 → Options → Flow (Worker S) → Type 0
  EndsAs Crash options (going w) = IsTracking w
  EndsAs Crash options (ended w) = IsTracking w
  EndsAs Crash options (halted e w) = IsTracking w × AtLimit options w.failures
  EndsAs Crash options crashed = Crash

  -- Nothing is said of a crash.
  abbrev pub EndsWell : Options → Flow (Worker S) → Type 0
  EndsWell = EndsAs Unit

  module _ (options : Options) (world : World) where
    infrastructure_failure-IsTracking :
        (op : Operation) (e : Error) (w : Worker S)
        → IsTracking w
        → IsTracking (infrastructure_failure options world op e w).1
    unfolding infrastructure_failure note_failure
    infrastructure_failure-IsTracking op e w t = ground (arith, t)

    infrastructure_failure-fatal :
        (op : Operation) (e : Error) (w : Worker S)
        → (infrastructure_failure options world op e w).0 ≡ true
        → is_fatal options (infrastructure_failure options world op e w).1.failures ≡ true
    unfolding infrastructure_failure note_failure
    infrastructure_failure-fatal op e w h = ground (arith, h)

    infrastructure_failure-AtLimit :
        (op : Operation) (e : Error) (w : Worker S)
        → (infrastructure_failure options world op e w).0 ≡ true
        → AtLimit options (infrastructure_failure options world op e w).1.failures
    infrastructure_failure-AtLimit op e w h =
        is_fatal-AtLimit options _ (infrastructure_failure-fatal op e w h)

    -- A failure halts the loop, or the round goes on.
    after_failure-EndsAs :
        (Crash : Type 0) (op : Operation) (e cause : Error) (w : Worker S)
        (go_on : Worker S → Flow (Worker S))
        → IsTracking w
        → ((w' : Worker S) → IsTracking w' → EndsAs Crash options (go_on w'))
        → EndsAs Crash options (
            if (infrastructure_failure options world op e w).0
            then halted cause (infrastructure_failure options world op e w).1
            else go_on (infrastructure_failure options world op e w).1)
    after_failure-EndsAs Crash op e cause w go_on t h =
        let t' = infrastructure_failure-IsTracking op e w t in
        elim (Bool-cases (infrastructure_failure options world op e w).0) [
          | inl y ↦ rw y (t', infrastructure_failure-AtLimit op e w y)
          | inr n ↦ rw n (h (infrastructure_failure options world op e w).1 t')
        ]

  moved : (s : S) (w : Worker S) → IsTracking w → IsTracking (with_store s w)
  moved s w t = record { counted = t.counted; shown = t.shown }

  module _ (queue : Queue S) (advancer : Option (Advancer S)) (options : Options) (world : World)
      (registry : Registry.Registry) (Crash : Type 0)
      (crashes : (item : Execution) (wakeups : List Wakeup) (w : Worker S)
        → supervise queue advancer options registry item wakeups w ≡ none
        → Crash) where
    wait-EndsAs :
        (w : Worker S)
        → IsTracking w
        → EndsAs Crash options (wait queue advancer options world registry w)
    wait-EndsAs w t = elim (Bool-cases (world.is_done w.reads)) [
      | inl y ↦ rw y (record { counted = t.counted; shown = t.shown })
      | inr n ↦ rw n (record { counted = t.counted; shown = t.shown })
    ]

    idle-EndsAs :
        (bad : Bool) (w : Worker S)
        → IsTracking w
        → EndsAs Crash options (idle queue advancer options world registry bad w)
    idle-EndsAs true w t = wait-EndsAs w t
    idle-EndsAs false w t = wait-EndsAs (healthy w) (healthy-IsTracking w)

    reconcile-EndsAs :
        (bad : Bool) (w : Worker S)
        → IsTracking w
        → EndsAs Crash options (reconcile queue advancer options world registry bad w)
    unfolding reconcile
    reconcile-EndsAs bad w t = elim (Option-cases advancer) [
      | inl n ↦ rw (n, reconcile) (idle-EndsAs bad w t)
      | inr (a, y) ↦ elim (Option-cases a.reconcile) [
        | inl n ↦ rw (y, n, reconcile) (idle-EndsAs bad w t)
        | inr (f, z) ↦ elim (Result-cases (f w.store).0) [
          | inl (u, h) ↦
              rw (y, z, h, reconcile)
                (idle-EndsAs bad (with_store (f w.store).1 w) (moved (f w.store).1 w t))
          | inr (e, h) ↦
              rw (y, z, h, reconcile)
                (after_failure-EndsAs options world Crash op_reconcile e
                  (wrapped "reconcile pipelines" e) (with_store (f w.store).1 w)
                  (λ w'. idle queue advancer options world registry true w')
                  (moved (f w.store).1 w t) (λ w' t'. idle-EndsAs true w' t'))
        ]
      ]
    ]

    deliver-EndsAs :
        (wakeups : List Wakeup) (item : Execution) (w : Worker S)
        → IsTracking w
        → EndsAs Crash options (deliver queue advancer options world registry wakeups item w)
    unfolding deliver
    deliver-EndsAs wakeups item w t =
        let k = supervise-Keeps queue advancer options registry item wakeups w in
        elim (Option-cases (supervise queue advancer options registry item wakeups w)) [
          | inl n ↦ rw (n, deliver) (crashes item wakeups w n)
          | inr (w', y) ↦
              rw (y, deliver) (SameHealth-IsTracking (subst (Keeps queue advancer w) y k) t)
        ]

    claim_next-EndsAs :
        (wakeups : List Wakeup) (bad : Bool) (w : Worker S)
        → IsTracking w
        → EndsAs Crash options (claim_next queue advancer options world registry wakeups bad w)
    unfolding claim_next
    claim_next-EndsAs wakeups bad w t = elim (Result-cases r.0) [
      | inr (e, h) ↦
          rw (h, claim_next)
            (after_failure-EndsAs options world Crash op_claim e (wrapped "claim execution" e)
              (with_store r.1 w) (reconcile queue advancer options world registry true)
              (moved r.1 w t) (reconcile-EndsAs true))
      | inl (items, h) ↦ rw (h, claim_next) (claimed items)
    ]
      where
        r : Result (List Execution) × S
        r = queue.claim options.id registry.keys (pos 1) options.lease_duration w.store

        ready_worker : Bool → Worker S
        ready_worker bad = if bad then with_store r.1 w else healthy (with_store r.1 w)

        ready-IsTracking : (bad : Bool) → IsTracking (ready_worker bad)
        ready-IsTracking true = moved r.1 w t
        ready-IsTracking false = healthy-IsTracking (with_store r.1 w)

        claimed :
            (items : List Execution)
            → EndsAs Crash options (elim items as (λ x. Flow (Worker S)) [
              | [] ↦ reconcile queue advancer options world registry bad (with_store r.1 w)
              | item ∷ rest ↦
                  deliver queue advancer options world registry wakeups item (ready_worker bad)
            ])
        claimed [] = reconcile-EndsAs bad (with_store r.1 w) (moved r.1 w t)
        claimed (item ∷ rest) =
            deliver-EndsAs wakeups item (ready_worker bad) (ready-IsTracking bad)

    -- The same of the loop over the reaped runs, which carries a flag.
    abbrev RunsEndWell : Flow (Bool × Worker S) → Type 0
    RunsEndWell (going r) = IsTracking r.1
    RunsEndWell (ended r) = IsTracking r.1
    RunsEndWell (halted e r) = IsTracking r.1 × AtLimit options r.1.failures
    RunsEndWell crashed = Crash

    advance_reaped-RunsEndWell :
        (a : Advancer S) (runs : List Uuid) (bad : Bool) (w : Worker S)
        → IsTracking w
        → RunsEndWell (advance_reaped queue advancer options world registry a runs bad w)
    unfolding advance_reaped
    advance_reaped-RunsEndWell a [] bad w t = t
    advance_reaped-RunsEndWell a (run ∷ rest) bad w t = elim (Result-cases r.0) [
      | inl (u, h) ↦
          rw (h, advance_reaped) (advance_reaped-RunsEndWell a rest bad w' (moved r.1 w t))
      | inr (e, h) ↦
          (let t' =
              infrastructure_failure-IsTracking options world op_advance e w' (moved r.1 w t) in
            elim (Bool-cases (infrastructure_failure options world op_advance e w').0) [
              | inl y ↦
                  rw (h, y, advance_reaped)
                    (t', infrastructure_failure-AtLimit options world op_advance e w' y)
              | inr n ↦ rw (h, n, advance_reaped) (advance_reaped-RunsEndWell a rest true _ t')
            ])
    ]
      where
        r : Result (Unit {0}) × S
        r = a.advance run w.store

        w' : Worker S
        w' = with_store r.1 w

    advance_runs-RunsEndWell :
        (runs : List Uuid) (w : Worker S)
        → IsTracking w
        → RunsEndWell (advance_runs queue advancer options world registry runs w)
    unfolding advance_runs
    advance_runs-RunsEndWell runs w t = elim (Option-cases advancer) [
      | inl n ↦ rw (n, advance_runs) t
      | inr (a, y) ↦ rw (y, advance_runs) (advance_reaped-RunsEndWell a runs false w t)
    ]

    after_reap-EndsAs :
        (wakeups : List Wakeup) (runs : List Uuid) (w : Worker S)
        → IsTracking w
        → EndsAs Crash options (after_reap queue advancer options world registry wakeups runs w)
    unfolding after_reap
    after_reap-EndsAs wakeups runs w t =
        go (advance_runs queue advancer options world registry runs w)
          (advance_runs-RunsEndWell runs w t)
      where
        go :
            (f : Flow (Bool × Worker S))
            → RunsEndWell f
            → EndsAs Crash options (elim f as (λ x. Flow (Worker S)) [
              | going (bad, w') ↦ claim_next queue advancer options world registry wakeups bad w'
              | ended (bad, w') ↦ ended w'
              | halted e (bad, w') ↦ halted e w'
              | crashed ↦ crashed
            ])
        go (going (bad, w')) h = claim_next-EndsAs wakeups bad w' h
        go (ended (bad, w')) h = h
        go (halted e (bad, w')) h = h
        go crashed h = h

    round-EndsAs :
        (wakeups : List Wakeup) (w : Worker S)
        → IsTracking w
        → EndsAs Crash options (round queue advancer options world registry wakeups w)
    unfolding round
    round-EndsAs wakeups w t = elim (Result-cases r.0) [
      | inl (runs, h) ↦
          rw (h, round) (after_reap-EndsAs wakeups runs (with_store r.1 w) (moved r.1 w t))
      | inr (e, h) ↦
          rw (h, round)
            (after_failure-EndsAs options world Crash op_reap e
              (wrapped "reap expired executions" e) (with_store r.1 w)
              (wait queue advancer options world registry) (moved r.1 w t) wait-EndsAs)
    ]
      where
        r : Result (List Uuid) × S
        r = queue.reap_expired w.store

    -- What holds of the end of each round holds of the end of the loop.
    pub loop-EndsAs :
        (rounds : List (List Wakeup)) (w : Worker S)
        → IsTracking w
        → EndsAs Crash options (loop queue advancer options world registry rounds w)
    unfolding loop
    loop-EndsAs [] w t = t
    loop-EndsAs (wakeups ∷ rest) w t = elim (Bool-cases (world.is_done w.reads)) [
      | inl y ↦ rw (y, loop) (record { counted = t.counted; shown = t.shown })
      | inr n ↦
          rw (n, loop)
            (go (loop-EndsAs rest)
              (round queue advancer options world registry wakeups (after_read w))
              (round-EndsAs wakeups (after_read w)
                (record { counted = t.counted; shown = t.shown })))
    ]
      where
        go :
            ((w' : Worker S)
              → IsTracking w'
              → EndsAs Crash options (loop queue advancer options world registry rest w'))
            → (f : Flow (Worker S)) → EndsAs Crash options f
            → EndsAs Crash options (elim f as (λ x. Flow (Worker S)) [
              | going w' ↦ loop queue advancer options world registry rest w'
              | ended w' ↦ ended w'
              | halted e w' ↦ halted e w'
              | crashed ↦ crashed
            ])
        go later (going w') h = later w' h
        go later (ended w') h = h
        go later (halted e w') h = h
        go later crashed h = h
