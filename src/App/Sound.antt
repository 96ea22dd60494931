-- ===== src/App/Sound.antt =====
-- The application that New (app.go) composes.
use ody.Schedule.Configure.{new_scheduler}
use ody.Worker.Resolve.{Wakeup}
use ody.Worker.{Queue, Advancer, World, new_options, Worker}
use ody.Execution.{ok, err_ne_ok, Result-cases, ok_inj}
use ody.Base.{Option, some, List, All, String, All-append, ◌∷◌, ◌≡◌, [], none, inr, inl, ◌∙◌, ap}
use ody.App.{
  Setting, Configuration, App, apply_setting, configure, new_app, zero_configuration, tasks,
  pipelines, observe, with_worker, schedules, with_scheduler, pos,
}
use ody.Worker.Policies.{IsBuilt, loop-NeverCrashes}
use ody.Worker.Failures.{EndsAs}
use ody.Worker.Loop.{loop}
use ody.Worker.Tracking.{IsTracking}
use ody.Task.Registry
use ody.Pipeline

module _ {S : Type 0} where
  -- A setting whose task modules NewModule has made.
  abbrev pub IsMade : Option (Setting S) → Type 1
  IsMade (some (tasks ms)) = All IsBuilt ms
  IsMade _ = Unit {1}

  apply_setting-All :
      (setting : Setting S) (c : Configuration S)
      → IsMade (some setting)
      → All IsBuilt c.modules
      → All IsBuilt (apply_setting setting c).modules
  unfolding apply_setting
  apply_setting-All (tasks ms) c m a = All-append IsBuilt c.modules ms a m
  apply_setting-All (pipelines ds) c m a = a
  apply_setting-All observe c m a = a
  apply_setting-All (with_worker options) c m a = a
  apply_setting-All (schedules ds) c m a = a
  apply_setting-All (with_scheduler interval) c m a = a

  configure-All :
      (settings : List (Option (Setting S))) (c : Configuration S)
      → All IsMade settings
      → All IsBuilt c.modules
      → All IsBuilt (configure settings c).modules
  unfolding configure
  configure-All [] c m a = a
  configure-All (none ∷ rest) c m a = configure-All rest c m.1 a
  configure-All (some setting ∷ rest) c m a =
      configure-All rest (apply_setting setting c) m.1 (apply_setting-All setting c m.0 a)

  new_app-registry :
      (store : Option S) (fresh : String) (settings : List (Option (Setting S))) (app : App S)
      → new_app store fresh settings ≡ ok app
      → Registry.new_registry (configure settings zero_configuration).modules ≡ ok app.registry
  unfolding new_app
  new_app-registry none fresh settings app h = absurd (err_ne_ok h)
  new_app-registry (some store) fresh settings app h =
      let config = configure settings zero_configuration in
      elim (Result-cases (Registry.new_registry config.modules)) [
        | inr (e, r) ↦ absurd (err_ne_ok (rw (r, new_app) at h))
        | inl (registry, r) ↦ elim (Result-cases (Pipeline.new_registry config.pipelines)) [
          | inr (e, p) ↦ absurd (err_ne_ok (rw (r, p, new_app) at h))
          | inl (known, p) ↦ elim (Result-cases (new_options fresh config.worker)) [
            | inr (e, o) ↦ absurd (err_ne_ok (rw (r, p, o, new_app) at h))
            | inl (options, o) ↦
                elim (Result-cases (new_scheduler (some store) config.schedules config.interval)) [
                  | inr (e, s) ↦ absurd (err_ne_ok (rw (r, p, o, s, new_app) at h))
                  | inl (scheduler, s) ↦
                      r ∙ ap (λ (x : App S). ok x.registry) (ok_inj (rw (r, p, o, s, new_app) at h))
                ]
          ]
        ]
      ]

-- The worker of an application that New returned, with task modules that NewModule made of bindings of
-- Handle, and with one polling loop (Concurrency 1), never crashes on a nil retry policy, whatever its
-- queue, its handlers and its waits do: from a health that shows the consecutive failures, its loop goes
-- on or ends with its context, or it returns an error where the limit of failures is positive and no
-- more than the consecutive failures; and the health still shows them.
pub new_app-NeverCrashes :
    {S T : Type 0} (store : Option S) (fresh : String) (settings : List (Option (Setting S)))
    (app : App S) (queue : Queue T) (advancer : Option (Advancer T)) (world : World)
    (rounds : List (List Wakeup)) (w : Worker T)
    → new_app store fresh settings ≡ ok app
    → All IsMade settings
    → app.options.concurrency ≡ pos 1
    → IsTracking w
    → EndsAs ⊥ app.options (loop queue advancer app.options world app.registry rounds w)
new_app-NeverCrashes store fresh settings app queue advancer world rounds w h made single t =
    loop-NeverCrashes queue advancer app.options world
      (configure settings zero_configuration).modules app.registry rounds w
      (configure-All settings zero_configuration made tt)
      (new_app-registry store fresh settings app h) t
