-- ===== src/App.antt =====
-- app.go: the options of the application, New, and what Run returns. `S` is the state of the store.
pub mod Sound
use Prim.Native.String.{[]}
use ody.Base.{List, [], ◌++◌, Option, pos, ◌∷◌, String, none, some, if◌then◌else◌}
use ody.Task.Registry
use ody.Pipeline
use ody.Worker.{Options, new_options}
use ody.Schedule
use ody.Schedule.Configure.{Started, new_scheduler}
use ody.Execution.{Result, ok, err, message, wrapped, Error, canceled, Duration}
use ody.Execution.Errors.{is_canceled}

-- `Option`, by the function that makes it. An observer only sees what happens.
pub data Setting (S : Type 0) : Type 0 where
  tasks : List Registry.Module → Setting S
  pipelines : List Pipeline.Definition → Setting S
  observe : Setting S
  with_worker : Options → Setting S
  schedules : List (Option (Schedule.Definition S)) → Setting S
  with_scheduler : Duration → Setting S

pub record Configuration (S : Type 0) : Type 0 where
  pub modules : List Registry.Module
  pub pipelines : List Pipeline.Definition
  pub worker : Options
  pub schedules : List (Option (Schedule.Definition S))
  pub interval : Duration

-- The registries of the application, its worker's options, and its scheduler.
pub record App (S : Type 0) : Type 0 where
  pub store : S
  pub registry : Registry.Registry
  pub pipelines : Pipeline.Registry
  pub options : Options
  pub scheduler : Started S

abbrev pub zero_options : Options
zero_options = record {
  id = "";
  concurrency = pos 0;
  poll_interval = pos 0;
  lease_duration = pos 0;
  heartbeat_interval = pos 0;
  max_consecutive_errors = pos 0;
  shutdown_grace_period = pos 0;
}

module _ {S : Type 0} where
  abbrev pub zero_configuration : Configuration S
  zero_configuration = record {
    modules = [];
    pipelines = [];
    worker = zero_options;
    schedules = [];
    interval = pos 0;
  }

  unfoldable pub apply_setting : Setting S → Configuration S → Configuration S
  apply_setting (tasks ms) c = record c { modules = c.modules ++ ms }
  apply_setting (pipelines ds) c = record c { pipelines = c.pipelines ++ ds }
  apply_setting observe c = c
  apply_setting (with_worker options) c = record c { worker = options }
  apply_setting (schedules ds) c = record c { schedules = c.schedules ++ ds }
  apply_setting (with_scheduler interval) c = record c { interval = interval }

  -- The loop over the options, of which a nil one is passed over.
  unfoldable pub configure : List (Option (Setting S)) → Configuration S → Configuration S
  unfolding apply_setting
  configure [] c = c
  configure (none ∷ rest) c = configure rest c
  configure (some setting ∷ rest) c = configure rest (apply_setting setting c)

  -- New, with the result of `uuid.NewString` for a worker without a name.
  unfoldable pub new_app : Option S → String → List (Option (Setting S)) → Result (App S)
  unfolding configure Registry.new_registry Pipeline.new_registry new_options new_scheduler
  new_app none fresh settings = err (message "ody store is nil")
  new_app (some store) fresh settings =
      let config = configure settings zero_configuration in
      elim (Registry.new_registry config.modules) [
        | err e ↦ err (wrapped "build task registry" e)
        | ok registry ↦ elim (Pipeline.new_registry config.pipelines) [
          | err e ↦ err (wrapped "build pipeline registry" e)
          | ok known ↦ elim (new_options fresh config.worker) [
            | err e ↦ err e
            | ok options ↦ elim (new_scheduler (some store) config.schedules config.interval) [
              | err e ↦ err e
              | ok scheduler ↦ ok (record {
                store = store;
                registry = registry;
                pipelines = known;
                options = options;
                scheduler = scheduler;
              })
            ]
          ]
        ]
      ]

-- The cause of the cancellation, from the errors of the components in the order in which they end.
unfoldable pub first_failure : List (Option Error) → Option Error
unfolding is_canceled
first_failure [] = none
first_failure (none ∷ rest) = first_failure rest
first_failure (some e ∷ rest) =
    let later = first_failure rest in if is_canceled e then later else some e

-- What Run returns, after the error of its context.
unfoldable pub run_result : Option Error → List (Option Error) → Option Error
unfolding first_failure
run_result (some e) ends = some e
run_result none ends = first_failure ends
