-- ===== src/Worker/Resolve.antt =====
-- worker/worker.go: execute, resolve and advance, which carry one delivery to its end.
-- `none` is the crash of a call of a nil retry policy.
use ody.Base.{◌∷◌, Option, ℤ, some, String, List, none, if◌then◌else◌, ◌==◌, true, pos, false, []}
use ody.Worker.{
  Queue, Advancer, Options, op_reload, op_advance, transition, infrastructure_error, Worker, report,
  with_store,
}
use ody.Task.Registry
use ody.Task.Registry.{Registry, policy, key_of}
use ody.Execution.{
  Status, running, succeeded, failed, retry, status_eq, Execution, Error, Result, ok, err, wrapped,
  Duration,
}
use ody.Execution.Errors.{error_text, is_permanent, retry_delay}

-- What ends a wait of `select`: the worker's context, the handler's context with its error, the
-- handler's result, or a tick of the heartbeat.
pub data Wakeup : Type 0 where
  worker_done : Wakeup
  handler_done : Error → Wakeup
  handler_result : Wakeup
  heartbeat_tick : Wakeup

-- The third and fourth results of `Policy`: the retry policy, if the task is registered.
abbrev pub retry_policy : Registry → Execution → Option (Option (ℤ → Duration))
retry_policy registry item = elim (policy registry (key_of item)) [
  | none ↦ none
  | some (attempts, timeout, f) ↦ some f
]

module _ {S : Type 0} (queue : Queue S) (advancer : Option (Advancer S)) where
  unfoldable pub advance : Execution → Worker S → Worker S
  advance item w = elim advancer [
    | none ↦ w
    | some a ↦ elim item.pipeline_run_id [
      | none ↦ w
      | some run ↦
          (let (r, s) = a.advance run w.store in
            elim r [
              | ok u ↦ with_store s w
              | err e ↦ report (infrastructure_error op_advance e) (with_store s w)
            ])
    ]
  ]

  -- The report of a call of the store: an error leaves the delivery running.
  abbrev pub settled :
      Execution → Status → Option Error → Result (Unit {0}) × S → Worker S → Worker S
  settled item status cause (ok u, s) w =
      advance item (report (transition item status cause) (with_store s w))
  settled item status cause (err e, s) w =
      report (transition item running (some e)) (with_store s w)

  -- What follows Retry: the status is read back.
  unfoldable pub reload : Execution → Error → Worker S → Worker S
  unfolding advance
  reload item cause w = elim (queue.get_execution item.id w.store) [
    | err e ↦
        report (transition item retry (some cause)) (report (infrastructure_error op_reload e) w)
    | ok updated ↦
        (let w' = report (transition updated updated.status (some cause)) w in
          if updated.status == failed then advance updated w' else w')
  ]

  unfoldable pub retry_later : Execution → Error → Duration → Worker S → Worker S
  unfolding reload error_text
  retry_later item cause delay w =
      let (r, s) = queue.retry item.id item.lease_token (error_text cause) delay w.store in
      elim r [
        | err e ↦ report (transition item running (some e)) (with_store s w)
        | ok u ↦ reload item cause (with_store s w)
      ]

  unfoldable pub resolve_error :
      Execution → Error → Option (Option (ℤ → Duration)) → Worker S → Option (Worker S)
  unfolding retry_later is_permanent retry_delay
  resolve_error item cause none w = some (
      settled item failed (some cause)
        (queue.fail item.id item.lease_token (error_text cause) w.store) w)
  resolve_error item cause (some f) w = elim (is_permanent cause) [
    | true ↦ some (
        settled item failed (some cause)
          (queue.fail item.id item.lease_token (error_text cause) w.store) w)
    | false ↦ elim (retry_delay cause) [
      | some delay ↦ some (retry_later item cause delay w)
      | none ↦ elim f [
        | none ↦ none
        | some g ↦ some (retry_later item cause (g (pos item.attempt)) w)
      ]
    ]
  ]

  unfoldable pub resolve :
      Execution → Result String → Option (Option (ℤ → Duration)) → Worker S → Option (Worker S)
  unfolding resolve_error advance
  resolve item (ok output) f w =
      some (settled item succeeded none (queue.succeed item.id item.lease_token output w.store) w)
  resolve item (err cause) f w = resolve_error item cause f w

  -- The loop of execute, over the wakeups that come.
  unfoldable pub supervise :
      Options → Registry → Execution → List Wakeup → Worker S → Option (Worker S)
  unfolding resolve
  supervise options registry item [] w = some w
  supervise options registry item (worker_done ∷ rest) w = some w
  supervise options registry item (handler_done e ∷ rest) w =
      resolve item (err e) (retry_policy registry item) w
  supervise options registry item (handler_result ∷ rest) w =
      resolve item (Registry.execute registry item) (retry_policy registry item) w
  supervise options registry item (heartbeat_tick ∷ rest) w =
      let (r, s) = queue.heartbeat item.id item.lease_token options.lease_duration w.store in
      elim r [
        | err e ↦
            some (report (transition item running (some (wrapped "heartbeat" e))) (with_store s w))
        | ok u ↦ supervise options registry item rest (with_store s w)
      ]
