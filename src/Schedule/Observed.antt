-- ===== src/Schedule/Observed.antt =====
-- What a tick of the scheduler (schedule/schedule.go) reports to Observer.Triggered.
use ody.Execution.{Time, Error, Result-cases}
use ody.Schedule.{
  OverlapPolicy, Definition, allow, Scheduler, Triggered, fire, fire_all, tick_one, tick,
  overlap_skip, fire_if_idle, start_trigger, due_at, trigger_key,
}
use ody.Base.{
  List, ◌++◌, ◌≡◌, ◌∷◌, [], String, ap, ◌⊎◌, ◌∙◌, ◌≢◌, All, All-append, ltb, All-of_mem, refl, inl,
  find_or, inr, Option, false, Bool-cases, string_eq, some, none,
}

pub append_assoc_lem : {A : Type 0} (xs ys zs : List A) → (xs ++ ys) ++ zs ≡ xs ++ (ys ++ zs)
append_assoc_lem [] ys zs = refl
append_assoc_lem (x ∷ xs) ys zs = ap (λ r. x ∷ r) (append_assoc_lem xs ys zs)

append-nil : {A : Type 0} (xs : List A) → xs ≡ xs ++ []
append-nil [] = refl
append-nil (x ∷ xs) = ap (λ r. x ∷ r) (append-nil xs)

overlap_cases : (o : OverlapPolicy) → (o ≡ allow) ⊎ (o ≡ overlap_skip)
overlap_cases allow = inl refl
overlap_cases overlap_skip = inr refl

module _ {S : Type 0} where
  -- Of the definition, what was triggered from one state to another is at such instants.
  abbrev pub Observes : Definition S → (Time → Type 0) → Scheduler S → Scheduler S → Type 0
  Observes e P s after =
      (new : List Triggered) × (after.observed ≡ s.observed ++ new)
      × All (λ (t : Triggered). (t.name ≢ e.name) ⊎ P t.scheduled_at) new

  module _ (format : Time → String) where
    -- A call of fire reports one instant, the one that it was called with.
    pub fire-observed :
        (d : Definition S) (at : Time) (s : Scheduler S)
        → (failure : Option Error) × ((fire format d at s).observed
            ≡ s.observed ++ record { name = d.name; scheduled_at = at; failure = failure } ∷ [])
    unfolding fire fire_if_idle start_trigger
    fire-observed d at s = elim (overlap_cases d.options.overlap) [
      | inl o ↦ rw o ((d.trigger at (trigger_key format d at) s.store).0, refl)
      | inr o ↦ elim (Result-cases (d.is_active s.store)) [
        | inr (e, r) ↦ rw (o, r, fire_if_idle) (some e, refl)
        | inl (b, r) ↦ elim (Bool-cases b) [
          | inl y ↦ rw (o, r, y, fire_if_idle) (none, refl)
          | inr n ↦
              rw (o, r, n, fire_if_idle) ((d.trigger at (trigger_key format d at) s.store).0, refl)
        ]
      ]
    ]

    module _ (e : Definition S) (P : Time → Type 0) where
      Observes-refl : (s : Scheduler S) → Observes e P s s
      Observes-refl s = ([], append-nil s.observed, tt)

      pub Observes-trans :
          (s t u : Scheduler S) → Observes e P s t → Observes e P t u → Observes e P s u
      Observes-trans s t u (new, p, a) (more, q, b) = (
        new ++ more,
        q ∙ ap (λ l. l ++ more) p ∙ append_assoc_lem s.observed new more,
        All-append _ new more a b,
      )

      fire_all-Observes :
          (d : Definition S) (due : List Time) (s : Scheduler S)
          → All (λ t. (d.name ≢ e.name) ⊎ P t) due
          → Observes e P s (fire_all format d due s)
      unfolding fire_all
      fire_all-Observes d [] s a = Observes-refl s
      fire_all-Observes d (at ∷ due) s a =
          let (failure, q) = fire-observed d at s in
          Observes-trans s (fire format d at s) (fire_all format d due (fire format d at s))
            (record { name = d.name; scheduled_at = at; failure = failure } ∷ [], q, (a.0, tt))
            (fire_all-Observes d due (fire format d at s) a.1)

      pub tick_one-Observes :
          (at : Time) (d : Definition S) (s : Scheduler S)
          → (ltb at (find_or 0 d.name s.next) ≡ false
              → All (λ t. (d.name ≢ e.name) ⊎ P t) (due_at format d (find_or 0 d.name s.next) at))
          → Observes e P s (tick_one format at d s)
      unfolding tick_one
      tick_one-Observes at d s a = elim (Bool-cases (ltb at (find_or 0 d.name s.next))) [
        | inl y ↦ rw y (Observes-refl s)
        | inr f ↦ rw f (fire_all-Observes d (due_at format d (find_or 0 d.name s.next) at) s (a f))
      ]

      -- The other definitions report nothing of this one.
      pub tick_one-Observes_other :
          (at : Time) (d : Definition S) (s : Scheduler S)
          → d.name ≢ e.name
          → Observes e P s (tick_one format at d s)
      tick_one-Observes_other at d s n =
          tick_one-Observes at d s (λ f. All-of_mem _ _ (λ t m. inl n))

      pub tick-Observes_other :
          (at : Time) (ds : List (Definition S)) (s : Scheduler S)
          → All (λ (d : Definition S). d.name ≢ e.name) ds
          → Observes e P s (tick format ds at s)
      unfolding tick
      tick-Observes_other at [] s a = Observes-refl s
      tick-Observes_other at (d ∷ ds) s a =
          Observes-trans s (tick_one format at d s) (tick format ds at (tick_one format at d s))
            (tick_one-Observes_other at d s a.0)
            (tick-Observes_other at ds (tick_one format at d s) a.1)
