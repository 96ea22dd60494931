-- ===== src/Worker/Loop.antt =====
-- worker/worker.go: loop, one polling loop of Run. The context is read at the head of each round, in
-- infrastructureFailure and in wait. Each round has the wakeups of the delivery that it may execute.
use ody.Base.{Option, if◌then◌else◌, List, Bool, ◌∷◌, pos, none, some, true, false, []}
use ody.Worker.{
  Queue, Advancer, Options, World, op_claim, op_reap, op_advance, op_reconcile, Worker, with_store,
  healthy, after_read, infrastructure_failure,
}
use ody.Worker.Resolve.{Wakeup, supervise}
use ody.Task.Registry
use ody.Execution.{Uuid, Execution, Error, ok, err, wrapped}

-- How a round, or a part of one, ends: it goes on, the loop breaks or returns an error, or the
-- worker crashes.
pub data Flow (A : Type 0) : Type 0 where
  going : A → Flow A
  ended : A → Flow A
  halted : Error → A → Flow A
  crashed : Flow A

module _ {S : Type 0} (queue : Queue S) (advancer : Option (Advancer S)) (options : Options)
    (world : World) (registry : Registry.Registry) where
  -- `if !wait(ctx, PollInterval) { break }; continue`
  abbrev pub wait : Worker S → Flow (Worker S)
  wait w = if world.is_done w.reads then ended (after_read w) else going (after_read w)

  -- The loop over the reaped runs, with whether there was an infrastructure error.
  unfoldable pub advance_reaped : Advancer S → List Uuid → Bool → Worker S → Flow (Bool × Worker S)
  unfolding infrastructure_failure
  advance_reaped a [] bad w = going (bad, w)
  advance_reaped a (run ∷ rest) bad w =
      let (r, s) = a.advance run w.store in
      elim r [
        | ok u ↦ advance_reaped a rest bad (with_store s w)
        | err e ↦
            (let (fatal, w') = infrastructure_failure options world op_advance e (with_store s w) in
              elim fatal [
                | true ↦ halted (wrapped "advance reaped pipeline" e) (true, w')
                | false ↦ advance_reaped a rest true w'
              ])
      ]

  -- The end of a round that has nothing to execute.
  abbrev pub idle : Bool → Worker S → Flow (Worker S)
  idle bad w = wait (if bad then w else healthy w)

  unfoldable pub reconcile : Bool → Worker S → Flow (Worker S)
  unfolding infrastructure_failure healthy
  reconcile bad w = elim advancer [
    | none ↦ idle bad w
    | some a ↦ elim a.reconcile [
      | none ↦ idle bad w
      | some f ↦
          (let (r, s) = f w.store in
            elim r [
              | ok u ↦ idle bad (with_store s w)
              | err e ↦
                  (let (fatal, w') =
                      infrastructure_failure options world op_reconcile e (with_store s w) in
                    if fatal then halted (wrapped "reconcile pipelines" e) w' else idle true w')
            ])
    ]
  ]

  unfoldable pub deliver : List Wakeup → Execution → Worker S → Flow (Worker S)
  unfolding supervise
  deliver wakeups item w = elim (supervise queue advancer options registry item wakeups w) [
    | none ↦ crashed
    | some w' ↦ going w'
  ]

  unfoldable pub claim_next : List Wakeup → Bool → Worker S → Flow (Worker S)
  unfolding deliver reconcile infrastructure_failure healthy
  claim_next wakeups bad w =
      let (r, s) = queue.claim options.id registry.keys (pos 1) options.lease_duration w.store in
      elim r [
        | err e ↦
            (let (fatal, w') = infrastructure_failure options world op_claim e (with_store s w) in
              if fatal then halted (wrapped "claim execution" e) w' else reconcile true w')
        | ok [] ↦ reconcile bad (with_store s w)
        | ok (item ∷ rest) ↦
            deliver wakeups item (if bad then with_store s w else healthy (with_store s w))
      ]

  unfoldable pub advance_runs : List Uuid → Worker S → Flow (Bool × Worker S)
  unfolding advance_reaped
  advance_runs runs w = elim advancer [
    | none ↦ going (false, w)
    | some a ↦ advance_reaped a runs false w
  ]

  -- The part of a round after ReapExpired has returned the runs.
  unfoldable pub after_reap : List Wakeup → List Uuid → Worker S → Flow (Worker S)
  unfolding advance_runs claim_next
  after_reap wakeups runs w = elim (advance_runs runs w) [
    | going (bad, w') ↦ claim_next wakeups bad w'
    | ended (bad, w') ↦ ended w'
    | halted e (bad, w') ↦ halted e w'
    | crashed ↦ crashed
  ]

  unfoldable pub round : List Wakeup → Worker S → Flow (Worker S)
  unfolding after_reap infrastructure_failure
  round wakeups w =
      let (r, s) = queue.reap_expired w.store in
      elim r [
        | err e ↦
            (let (fatal, w') = infrastructure_failure options world op_reap e (with_store s w) in
              if fatal then halted (wrapped "reap expired executions" e) w' else wait w')
        | ok runs ↦ after_reap wakeups runs (with_store s w)
      ]

  -- Rounds until the context is done or the loop stops; `going` where the rounds given are over.
  unfoldable pub loop : List (List Wakeup) → Worker S → Flow (Worker S)
  unfolding round
  loop [] w = going w
  loop (wakeups ∷ rest) w = elim (world.is_done w.reads) [
    | true ↦ ended (after_read w)
    | false ↦ elim (round wakeups (after_read w)) [
      | going w' ↦ loop rest w'
      | ended w' ↦ ended w'
      | halted e w' ↦ halted e w'
      | crashed ↦ crashed
    ]
  ]
