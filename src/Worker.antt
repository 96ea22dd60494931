-- ===== src/Worker.antt =====
-- worker/worker.go: the options, the store that a worker uses, its health and what it reports.
-- `S` is the state of the store. `World` is what the worker reads outside: whether its context is
-- done, and the clock, each as a sequence of readings. The polling loops of Run share
-- one health under healthMu; a loop is modelled as its only owner, as with Concurrency 1.
pub mod Resolve
pub mod Loop
pub mod Local
pub mod Defaults
pub mod Tracking
pub mod Failures
pub mod Policies
use Prim.Native.Nat.{ℕ, suc}
use Prim.Native.String.{String, []}
use ody.Base.{
  String, Option, ℕ, List, if◌then◌else◌, [], ◌++◌, suc, Bool, ℤ, is_nonpos, pos, ◌∷◌, not, ◌&&◌,
  ◌/◌, int_ltb, leb, false, negsuc, ◌==◌, to_nat, string_eq,
}
use ody.Task.Registry.{Registry}
use ody.Execution.{
  Uuid, Time, Duration, TaskKey, Status, Execution, Error, Result, ok, err, message,
}
use ody.Execution.Errors.{error_text, is_canceled}

-- `execution.Queue` with GetExecution.
pub record Queue (S : Type 0) : Type 0 where
  pub claim : String → List TaskKey → ℤ → Duration → S → Result (List Execution) × S
  pub reap_expired : S → Result (List Uuid) × S
  pub heartbeat : Uuid → Uuid → Duration → S → Result (Unit {0}) × S
  pub succeed : Uuid → Uuid → String → S → Result (Unit {0}) × S
  pub retry : Uuid → Uuid → String → Duration → S → Result (Unit {0}) × S
  pub fail : Uuid → Uuid → String → S → Result (Unit {0}) × S
  pub get_execution : Uuid → S → Result Execution

-- The pipeline engine; `reconcile` is there if it is a `reconciler`.
pub record Advancer (S : Type 0) : Type 0 where
  pub advance : Uuid → S → Result (Unit {0}) × S
  pub reconcile : Option (S → Result (Unit {0}) × S)

pub record Options : Type 0 where
  pub id : String
  pub concurrency : ℤ
  pub poll_interval : Duration
  pub lease_duration : Duration
  pub heartbeat_interval : Duration
  pub max_consecutive_errors : ℤ
  pub shutdown_grace_period : Duration

pub data Operation : Type 0 where
  op_claim op_reap op_advance op_reconcile op_reload : Operation

-- A call of the observer.
pub data Report : Type 0 where
  transition : Execution → Status → Option Error → Report
  infrastructure_error : Operation → Error → Report

pub data HealthStatus : Type 0 where
  ready degraded : HealthStatus

pub record Health : Type 0 where
  pub status : HealthStatus
  pub consecutive_failures : ℕ
  pub last_error : String
  pub last_failure_at : Time

pub record World : Type 0 where
  pub is_done : ℕ → Bool
  pub clock : ℕ → Time

-- One polling loop of a worker: the store, the shared health, the reports, the loop's own count of
-- consecutive failures, and how often the world was read.
pub record Worker (S : Type 0) : Type 0 where
  pub store : S
  pub health : Health
  pub reports : List Report
  pub failures : ℕ
  pub reads : ℕ

abbrev pub default : Duration → Duration → Duration
default otherwise d = if is_nonpos d then otherwise else d

-- The `LeaseDuration / 3` of a positive duration.
abbrev pub third : Duration → Duration
third (pos n) = pos (n / 3)
third (negsuc n) = pos 0

-- The options that New uses, where `fresh` is `uuid.NewString()`. Durations are nanoseconds.
unfoldable pub new_options : String → Options → Result Options
new_options fresh options =
    let lease = default (pos 30000000000) options.lease_duration in
    let heartbeat = default (third lease) options.heartbeat_interval in
    if not (int_ltb heartbeat lease)
    then err (message "heartbeat interval must be shorter than lease duration")
    else ok (record {
      id = if options.id == "" then fresh else options.id;
      concurrency = default (pos 1) options.concurrency;
      poll_interval = default (pos 100000000) options.poll_interval;
      lease_duration = lease;
      heartbeat_interval = heartbeat;
      max_consecutive_errors = options.max_consecutive_errors;
      shutdown_grace_period = default (pos 30000000000) options.shutdown_grace_period;
    })

abbrev pub healthy_state : Health
healthy_state = record {
  status = ready;
  consecutive_failures = 0;
  last_error = "";
  last_failure_at = 0;
}

unfoldable pub new_worker : {S : Type 0} → S → Worker S
new_worker s = record { store = s; health = healthy_state; reports = []; failures = 0; reads = 0 }

-- `MaxConsecutiveErrors > 0 && *consecutive >= MaxConsecutiveErrors`
abbrev pub is_fatal : Options → ℕ → Bool
is_fatal options failures =
    not (is_nonpos options.max_consecutive_errors)
    && leb (to_nat options.max_consecutive_errors) failures

module _ {S : Type 0} where
  abbrev pub report : Report → Worker S → Worker S
  report r w = record w { reports = w.reports ++ r ∷ [] }

  abbrev pub with_store : S → Worker S → Worker S
  with_store s w = record w { store = s }

  unfoldable pub healthy : Worker S → Worker S
  healthy w = record w { failures = 0; health = healthy_state }

  abbrev pub after_read : Worker S → Worker S
  after_read w = record w { reads = suc w.reads }

  -- The part of infrastructureFailure after its early return.
  unfoldable pub note_failure : World → Operation → Error → Worker S → Worker S
  unfolding error_text
  note_failure world operation e w = report (infrastructure_error operation e) (
      after_read (record w {
        failures = suc w.failures;
        health = record {
          status = degraded;
          consecutive_failures = suc w.failures;
          last_error = error_text e;
          last_failure_at = world.clock w.reads;
        };
      }))

  -- Whether the loop must stop.
  unfoldable pub infrastructure_failure :
      Options → World → Operation → Error → Worker S → Bool × Worker S
  unfolding note_failure is_canceled
  infrastructure_failure options world operation e w =
      if is_canceled e && world.is_done w.reads then (false, after_read w) else (
        is_fatal options (suc w.failures),
        note_failure world operation e (if is_canceled e then after_read w else w),
      )
