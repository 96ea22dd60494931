-- ===== src/Tests/Polling.antt =====
-- The registry (task/registry.go) and the worker (worker/worker.go) at one task and a store that is down.
use ody.Worker.Policies.{IsBuilt, handled}
use ody.Pipeline.{trim_space}
use ody.Worker.Resolve.{handler_result}
use ody.Task.{Specification, validate}
use ody.Tests.{env, waiting}
use ody.Base.{
  String, [], ◌∷◌, pos, none, some, List, ◌≡◌, ◌≢◌, refl, insert, false, lookup, sort, Option,
}
use ody.App as Application
use ody.App.{App, Setting, with_worker, new_app, configure, apply_setting}
use ody.App.Sound.{new_app-NeverCrashes}
use ody.Pipeline
use ody.Schedule.Configure.{new_scheduler, accept_definitions}
use ody.Task.Registry.{
  Descriptor, Module, Registry, new_registry, register_modules, register_all, Binding,
  execute_handler, new_module, Message, handle, failed_with, accept_bindings, Outcome,
}
use ody.Task.Registry.Sound.{IsSound, new_registry-IsSound}
use ody.Worker.{Options, World, Queue, Worker, new_options, new_worker}
use ody.Worker.Defaults.{IsUsable, new_options-IsUsable}
use ody.Worker.Failures.{EndsAs}
use ody.Worker.Tracking.{IsTracking}
use ody.Worker.Loop.{loop}
use ody.Worker.Local.{memory_queue}
use ody.Memory.{MemoryStore, new_memory_store}
use ody.Execution.{ok, err, message, TaskKey}

abbrev mail : Descriptor
mail = record {
  name = "mail";
  version = pos 1;
  max_attempts = pos 3;
  timeout = pos 0;
  retry = some (λ k. pos 5);
  execute = λ item. ok item.input;
}

abbrev modules : List Module
modules = record { name = "mails"; descriptors = mail ∷ [] } ∷ []

abbrev mail_key : TaskKey
mail_key = record { name = "mail"; version = pos 1 }

abbrev tasks : Registry
tasks = record { tasks = (mail_key, mail) ∷ []; keys = mail_key ∷ [] }

registered : new_registry modules ≡ ok tasks
unfolding new_registry register_modules register_all insert lookup sort
registered = refl

new_registry-IsSound_example : IsSound tasks
new_registry-IsSound_example = new_registry-IsSound modules tasks registered

abbrev options : Options
options = record {
  id = "";
  concurrency = pos 0;
  poll_interval = pos 0;
  lease_duration = pos 90;
  heartbeat_interval = pos 0;
  max_consecutive_errors = pos 2;
  shutdown_grace_period = pos 7;
}

abbrev accepted : Options
accepted = record {
  id = "w1";
  concurrency = pos 1;
  poll_interval = pos 100000000;
  lease_duration = pos 90;
  heartbeat_interval = pos 30;
  max_consecutive_errors = pos 2;
  shutdown_grace_period = pos 7;
}

accepts : new_options "w1" options ≡ ok accepted
unfolding new_options
accepts = refl

fresh_named : ◌≢◌ {A = String} "w1" ""
fresh_named p = cc p

new_options-IsUsable_example : IsUsable accepted
new_options-IsUsable_example = new_options-IsUsable "w1" options accepted fresh_named accepts

-- A store whose ReapExpired fails, in a context that is never done.
abbrev down : Queue MemoryStore
down = record memory_queue { reap_expired = λ s. (err (message "down"), s) }

abbrev world : World
world = record { is_done = λ n. false; clock = λ n. n }

abbrev idle_worker : Worker MemoryStore
idle_worker = new_worker (new_memory_store env)

-- The same task, bound by Handle to a handler that always fails.
abbrev mail_spec : Specification
mail_spec = record {
  name = "mail";
  version = pos 1;
  max_attempts = pos 3;
  timeout = pos 0;
  retry = some (λ k. pos 5);
}

abbrev failing_handler : Option (Message String → Outcome String)
failing_handler = some (λ m. failed_with (message "no"))

abbrev binding : Binding
binding = handle (λ id. "") (λ text. ok text) (λ text. ok text) mail_spec failing_handler

abbrev bound : Descriptor
bound = record mail {
  execute =
      execute_handler (λ id. "") (λ text. ok text) (λ text. ok text)
        (λ m. failed_with (message "no"));
}

abbrev bound_module : Module
bound_module = record { name = "mails"; descriptors = bound ∷ [] }

abbrev bound_tasks : Registry
bound_tasks = record { tasks = (mail_key, bound) ∷ []; keys = mail_key ∷ [] }

bound_module-IsBuilt : IsBuilt bound_module
unfolding new_module accept_bindings trim_space handle validate execute_handler
bound_module-IsBuilt = record {
  name = "mails";
  bindings = binding ∷ [];
  bound = (handled (λ id. "") (λ text. ok text) (λ text. ok text) mail_spec failing_handler, tt);
  made = refl;
}

bound_registered : new_registry (bound_module ∷ []) ≡ ok bound_tasks
unfolding new_registry register_modules register_all insert lookup sort
bound_registered = refl

-- The first execution of the queue is claimed, and its handler has a result.
abbrev busy_worker : Worker MemoryStore
busy_worker = new_worker waiting

busy_worker-IsTracking : IsTracking busy_worker
unfolding new_worker
busy_worker-IsTracking = record { counted = refl; shown = refl }

-- The application of this task.
abbrev settings : List (Option (Setting MemoryStore))
settings = some (Application.tasks (bound_module ∷ [])) ∷ none ∷ some (with_worker options) ∷ []

abbrev app : App MemoryStore
app = record {
  store = waiting;
  registry = bound_tasks;
  pipelines = [];
  options = accepted;
  scheduler = record {
    definitions = [];
    interval = pos 1000000000;
    scheduler = record { next = []; store = waiting; observed = [] };
  };
}

composes : new_app (some waiting) "w1" settings ≡ ok app
unfolding new_app configure apply_setting new_registry register_modules register_all insert lookup
    sort new_options new_scheduler accept_definitions Pipeline.new_registry Pipeline.register
composes = refl

new_app-NeverCrashes_example : EndsAs ⊥ accepted (
    loop memory_queue none accepted world bound_tasks ((handler_result ∷ []) ∷ [] ∷ []) busy_worker)
new_app-NeverCrashes_example =
    new_app-NeverCrashes (some waiting) "w1" settings app memory_queue none world
      ((handler_result ∷ []) ∷ [] ∷ []) busy_worker composes
      ((bound_module-IsBuilt, tt), (tt, (tt, tt))) refl busy_worker-IsTracking
