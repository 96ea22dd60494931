-- ===== src/Worker/Policies.antt =====
-- The retry policies (task/registry.go) of the tasks that a worker (worker/worker.go) executes.
use ody.Execution.Errors.{is_permanent, retry_delay}
use ody.Pipeline.{trim_space}
use ody.Base.{
  String, is_some, some, ◌≡◌, List, All, true, ◌≢◌, none, Bool-cases, Option, inl, Option-cases,
  subst, inr, ◌==◌, ◌∷◌, ap, sym, contains, [], ◌∙◌, string_eq, refl, arith, lookup, ℤ, some_inj,
  false,
}
use ody.Execution.{
  Uuid, Result, ok, TaskKey, ok_inj, err_ne_ok, err, Result-cases, task_key_eq, Execution, Error,
  Duration,
}
use ody.Worker.{Queue, Advancer, Options, World, Worker}
use ody.Worker.Resolve.{
  Wakeup, supervise, resolve, resolve_error, retry_policy, worker_done, handler_done,
  handler_result, heartbeat_tick,
}
use ody.Task.Registry
use ody.Task.Registry.{
  Descriptor, Binding, Module, Message, Outcome, handle, new_module, accept_bindings, new_registry,
  key_of, policy, descriptor_key,
}
use ody.Task.Registry.Sound.{new_registry-All}
use ody.Task.{Specification, validate}
use ody.Worker.Failures.{EndsAs, loop-EndsAs}
use ody.Worker.Loop.{loop}
use ody.Worker.Tracking.{IsTracking}

-- A binding that a call of Handle has returned.
pub data IsHandled : Binding → Type 1 where
  handled :
      {I O : Type 0} (uuid_text : Uuid → String) (decode : String → Result I)
      (encode : O → Result String) (spec : Specification) (handler : Option (Message I → Outcome O))
      → IsHandled (handle uuid_text decode encode spec handler)

-- A module that NewModule has made of such bindings.
pub record IsBuilt (m : Module) : Type 1 where
  pub name : String
  pub bindings : List Binding
  pub bound : All IsHandled bindings
  pub made : new_module name bindings ≡ ok m

HasPolicy : Descriptor → Type 0
HasPolicy d = is_some d.retry ≡ true

some_ne_none : {A : Type 0} {a : A} → some a ≢ none
some_ne_none h = cc

validate-HasPolicy : (spec : Specification) → validate spec ≡ none → is_some spec.retry ≡ true
unfolding validate
validate-HasPolicy spec h = ground (arith, h)

IsHandled-HasPolicy : (b : Binding) (d : Descriptor) → IsHandled b → b ≡ ok d → HasPolicy d
unfolding handle HasPolicy
IsHandled-HasPolicy _ d (handled uuid_text decode encode spec handler) h =
    elim (Option-cases (validate spec)) [
      | inr (e, v) ↦ absurd (err_ne_ok (rw (v, handle) at h))
      | inl v ↦ elim (Option-cases handler) [
        | inl n ↦ absurd (err_ne_ok (rw (v, n, handle) at h))
        | inr (run, s) ↦
            ap (λ (x : Descriptor). is_some x.retry) (sym (ok_inj (rw (v, s, handle) at h)))
            ∙ validate-HasPolicy spec v
      ]
    ]

accept_bindings-HasPolicy :
    (seen : List TaskKey) (bindings : List Binding) (ds : List Descriptor)
    → All IsHandled bindings
    → accept_bindings seen bindings ≡ ok ds
    → All HasPolicy ds
unfolding accept_bindings
accept_bindings-HasPolicy seen [] ds a h = subst (All HasPolicy) (ok_inj h) tt
accept_bindings-HasPolicy seen (err e ∷ rest) ds a h = absurd (err_ne_ok h)
accept_bindings-HasPolicy seen (ok d ∷ rest) ds a h =
    elim (Bool-cases (contains seen (descriptor_key d))) [
      | inl y ↦ absurd (err_ne_ok (rw (y, accept_bindings) at h))
      | inr n ↦ elim (Result-cases (accept_bindings (descriptor_key d ∷ seen) rest)) [
        | inr (e, r) ↦ absurd (err_ne_ok (rw (n, r, accept_bindings) at h))
        | inl (others, r) ↦ subst (All HasPolicy) (ok_inj (rw (n, r, accept_bindings) at h)) (
          IsHandled-HasPolicy (ok d) d a.0 refl,
          accept_bindings-HasPolicy (descriptor_key d ∷ seen) rest others a.1 r,
        )
      ]
    ]

IsBuilt-HasPolicy : (m : Module) → IsBuilt m → All HasPolicy m.descriptors
unfolding new_module
IsBuilt-HasPolicy m b = elim (Bool-cases (trim_space b.name == "")) [
  | inl y ↦ absurd (err_ne_ok (rw (y, new_module) at b.made))
  | inr n ↦ elim (Result-cases (accept_bindings [] b.bindings)) [
    | inr (e, r) ↦ absurd (err_ne_ok (rw (n, r, new_module) at b.made))
    | inl (ds, r) ↦
        subst (λ (x : Module). All HasPolicy x.descriptors)
          (ok_inj (rw (n, r, new_module) at b.made))
          (accept_bindings-HasPolicy [] b.bindings ds b.bound r)
  ]
]

-- Every task of the registry has a retry policy.
HasPolicies : Registry.Registry → Type 0
HasPolicies registry =
    (k : TaskKey) (d : Descriptor) → lookup k registry.tasks ≡ some d → HasPolicy d

retry_policy-some :
    (registry : Registry.Registry) (item : Execution) (f : Option (ℤ → Duration))
    → HasPolicies registry
    → retry_policy registry item ≡ some f
    → is_some f ≡ true
unfolding HasPolicies HasPolicy policy
retry_policy-some registry item f has h =
    elim (Option-cases (lookup (key_of item) registry.tasks)) [
      | inl n ↦ absurd (some_ne_none (sym (rw (n, retry_policy, policy) at h)))
      | inr (d, e) ↦
          ap is_some (sym (some_inj (rw (e, retry_policy, policy) at h))) ∙ has (key_of item) d e
    ]

module _ {S : Type 0} (queue : Queue S) (advancer : Option (Advancer S)) where
  resolve_error-some :
      (item : Execution) (cause : Error) (f : Option (Option (ℤ → Duration))) (w : Worker S)
      → ((g : Option (ℤ → Duration)) → f ≡ some g → is_some g ≡ true)
      → resolve_error queue advancer item cause f w ≢ none
  unfolding resolve_error
  resolve_error-some item cause none w has h = some_ne_none h
  resolve_error-some item cause (some f) w has h = elim (Bool-cases (is_permanent cause)) [
    | inl y ↦ some_ne_none (rw (y, resolve_error) at h)
    | inr n ↦ elim (Option-cases (retry_delay cause)) [
      | inr (delay, d) ↦ some_ne_none (rw (n, d, resolve_error) at h)
      | inl z ↦ elim (Option-cases f) [
        | inr (g, p) ↦ some_ne_none (rw (n, z, p, resolve_error) at h)
        | inl p ↦ false_ne_true (sym (ap is_some p) ∙ has f refl)
      ]
    ]
  ]
    where
      false_ne_true : false ≢ true
      false_ne_true q = cc

  resolve-some :
      (item : Execution) (r : Result String) (f : Option (Option (ℤ → Duration))) (w : Worker S)
      → ((g : Option (ℤ → Duration)) → f ≡ some g → is_some g ≡ true)
      → resolve queue advancer item r f w ≢ none
  unfolding resolve
  resolve-some item (ok output) f w has h = some_ne_none h
  resolve-some item (err cause) f w has h = resolve_error-some item cause f w has h

  supervise-some :
      (options : Options) (registry : Registry.Registry) (item : Execution) (wakeups : List Wakeup)
      (w : Worker S)
      → HasPolicies registry
      → supervise queue advancer options registry item wakeups w ≢ none
  unfolding supervise
  supervise-some options registry item [] w has h = some_ne_none h
  supervise-some options registry item (worker_done ∷ rest) w has h = some_ne_none h
  supervise-some options registry item (handler_done e ∷ rest) w has h =
      resolve-some item (err e) (retry_policy registry item) w
        (λ g. retry_policy-some registry item g has) h
  supervise-some options registry item (handler_result ∷ rest) w has h =
      resolve-some item (Registry.execute registry item) (retry_policy registry item) w
        (λ g. retry_policy-some registry item g has) h
  supervise-some options registry item (heartbeat_tick ∷ rest) w has h =
      elim (Result-cases
        (queue.heartbeat item.id item.lease_token options.lease_duration w.store).0) [
          | inr (e, r) ↦ some_ne_none (rw (r, supervise) at h)
          | inl (u, r) ↦ supervise-some options registry item rest _ has (rw (r, supervise) at h)
        ]

-- A polling loop whose registry was made by NewRegistry, of modules that NewModule made of bindings of
-- Handle, never crashes on a nil retry policy, whatever its store, its handlers and its waits do. Where it
-- alone has the health of the worker, it goes on, ends with its context, or returns an error at the limit
-- of failures, and the health shows the consecutive failures.
pub loop-NeverCrashes :
    {S : Type 0} (queue : Queue S) (advancer : Option (Advancer S)) (options : Options)
    (world : World) (modules : List Module) (registry : Registry.Registry)
    (rounds : List (List Wakeup)) (w : Worker S)
    → All IsBuilt modules
    → new_registry modules ≡ ok registry
    → IsTracking w
    → EndsAs ⊥ options (loop queue advancer options world registry rounds w)
unfolding HasPolicies
loop-NeverCrashes queue advancer options world modules registry rounds w built made t =
    loop-EndsAs queue advancer options world registry ⊥
      (λ item wakeups w'. supervise-some queue advancer options registry item wakeups w' has) rounds
      w t
  where
    policies : (ms : List Module) → All IsBuilt ms → All (λ m. All HasPolicy m.descriptors) ms
    policies [] a = tt
    policies (m ∷ ms) a = (IsBuilt-HasPolicy m a.0, policies ms a.1)

    has : HasPolicies registry
    has = new_registry-All HasPolicy modules registry made (policies modules built)
