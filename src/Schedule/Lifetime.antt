-- ===== src/Schedule/Lifetime.antt =====
-- A whole run of the scheduler (schedule/schedule.go), from New to its last tick.
use ody.Schedule.Distinct.{Differ, new_scheduler-distinct}
use ody.Schedule.Observed.{
  Observes, Observes-trans, tick_one-Observes_other, tick_one-Observes, tick-Observes_other,
}
use ody.Base.{
  ◌≢◌, List, ◌∷◌, String, Option, ◌≡◌, find_or, [], ◌∙◌, Map, Bool-cases, string_eq, Pairwise,
  insert, ltb, refl, All, lookup-insert_ne, inl, inr, ap, subst, All-of_mem, All-mem, arith, not,
  sym, Member, is_nonpos, ◌<◌, ◌&&◌, there, here, ◌-◌, ◌⊎◌,
}
use ody.Execution.{Time, ok, Duration}
use ody.Schedule.{
  Definition, Scheduler, fire, fire_all, fire_if_idle, start_trigger, tick_one, tick,
  initialize_one, initialize, due_at, not_skip, initial_due, occurrences, subtract,
}
use ody.Schedule.Configure.{new_scheduler, tick_all, run, Started}
use ody.Schedule.Occurrences.{IsSchedule, InPeriod, occurrences_sound}
use ody.Schedule.Ticks.{tick_one_later, InPeriod-later, tick_due-All, find_or-insert}

-- The last instant of a run.
abbrev pub last_time : Time → List Time → Time
last_time first [] = first
last_time first (at ∷ rest) = last_time at rest

find_or-insert_ne :
    (k j : String) (t : Time) (m : Map String Time)
    → k ≢ j
    → find_or 0 j (insert k t m) ≡ find_or 0 j m
unfolding find_or
find_or-insert_ne k j t m n = rw (find_or, lookup-insert_ne k j t m n) refl

module _ {S : Type 0} where
  module _ (format : Time → String) where
    fire-next :
        (d : Definition S) (at : Time) (s : Scheduler S) → (fire format d at s).next ≡ s.next
    unfolding fire fire_if_idle start_trigger
    fire-next d at s = ground arith

    fire_all-next :
        (d : Definition S) (due : List Time) (s : Scheduler S)
        → (fire_all format d due s).next ≡ s.next
    unfolding fire_all
    fire_all-next d [] s = refl
    fire_all-next d (at ∷ due) s = fire_all-next d due (fire format d at s) ∙ fire-next d at s

    module _ (e : Definition S) where
      abbrev next_of : Scheduler S → Time
      next_of s = find_or 0 e.name s.next

      tick_one-other :
          (at : Time) (d : Definition S) (s : Scheduler S)
          → Differ d e
          → next_of (tick_one format at d s) ≡ next_of s
      unfolding tick_one
      tick_one-other at d s n = elim (Bool-cases (ltb at (find_or 0 d.name s.next))) [
        | inl y ↦ rw y refl
        | inr f ↦ rw f (
            find_or-insert_ne d.name e.name _ _ n
            ∙ ap (find_or 0 e.name)
                (fire_all-next d (due_at format d (find_or 0 d.name s.next) at) s))
      ]

      tick-other :
          (at : Time) (ds : List (Definition S)) (s : Scheduler S)
          → All (λ d. Differ d e) ds
          → next_of (tick format ds at s) ≡ next_of s
      unfolding tick
      tick-other at [] s a = refl
      tick-other at (d ∷ ds) s a =
          tick-other at ds (tick_one format at d s) a.1 ∙ tick_one-other at d s a.0

      initialize_one-insert :
          (at : Time) (d : Definition S) (s : Scheduler S)
          → (initialize_one format at d s).next ≡ insert d.name (d.next_time at) s.next
      unfolding initialize_one
      initialize_one-insert at d s =
          elim (Bool-cases (not (is_nonpos d.options.lookback) && not_skip d.options.misfire)) [
            | inl y ↦ rw y (
                ap (insert d.name (d.next_time at)) (
                  fire_all-next d
                    (initial_due d.options.misfire (
                      occurrences d.next_time (subtract at d.options.lookback) at
                        d.options.max_catch_up))
                    s))
            | inr n ↦ rw n refl
          ]

      initialize-other :
          (at : Time) (ds : List (Definition S)) (s : Scheduler S)
          → All (λ d. Differ d e) ds
          → next_of (initialize format ds at s) ≡ next_of s
      unfolding initialize
      initialize-other at [] s a = refl
      initialize-other at (d ∷ ds) s a =
          initialize-other at ds (initialize_one format at d s) a.1
          ∙ ap (find_or 0 e.name) (initialize_one-insert at d s)
          ∙ find_or-insert_ne d.name e.name (d.next_time at) s.next a.0

      others-Differ : (ds : List (Definition S)) → All (Differ e) ds → All (λ d. Differ d e) ds
      others-Differ [] a = tt
      others-Differ (d ∷ ds) a = ((λ p. a.0 (sym p)), others-Differ ds a.1)

      module _ (Fires : Time → Type 0) (schedule : IsSchedule Fires e.next_time) where
        tick-later :
            (at : Time) (ds : List (Definition S)) (s : Scheduler S)
            → Pairwise Differ ds
            → Member e ds
            → at < next_of (tick format ds at s)
        unfolding tick
        tick-later at [] s p m = elim m [ ]
        tick-later at (d ∷ ds) s p (there m) = tick-later at ds (tick_one format at d s) p.1 m
        tick-later at (d ∷ ds) s p (here q) =
            (let a = others-Differ ds (subst (λ x. All (Differ x) ds) (sym q) p.0) in
              subst (λ n. at < n) (sym (tick-other at ds (tick_one format at d s) a))
                (subst (λ x. at < next_of (tick_one format at x s)) q
                  (tick_one_later format Fires e schedule at s)))

        due_at-InPeriod :
            (at later : Time) (s : Scheduler S)
            → at < next_of s
            → All
                (λ t. (e.name ≢ e.name) ⊎ InPeriod Fires e.next_time schedule at later t)
                (due_at format e (next_of s) later)
        unfolding due_at
        due_at-InPeriod at later s h = tick_due-All _ e.options.misfire _ (
            All-of_mem _ _ (λ t m. inr (
              All-mem (InPeriod Fires e.next_time schedule at later)
                (InPeriod-later format Fires e schedule at (next_of s) later _ h
                  (occurrences_sound Fires e.next_time schedule (next_of s - 1) later
                    e.options.max_catch_up).0)
                m)))

        tick-Observes :
            (at later : Time) (ds : List (Definition S)) (s : Scheduler S)
            → Pairwise Differ ds
            → Member e ds
            → at < next_of s
            → Observes e (InPeriod Fires e.next_time schedule at later) s (tick format ds later s)
        unfolding tick
        tick-Observes at later [] s p m h = elim m [ ]
        tick-Observes at later (d ∷ ds) s p (there m) h =
            (let n = All-mem (Differ d) p.0 m in
              let t = tick_one format later d s in
              Observes-trans format e (InPeriod Fires e.next_time schedule at later) s t
                (tick format ds later t)
                (tick_one-Observes_other format e (InPeriod Fires e.next_time schedule at later)
                  later d s n)
                (tick-Observes at later ds t p.1 m
                  (subst (λ x. at < x) (sym (tick_one-other later d s n)) h)))
        tick-Observes at later (d ∷ ds) s p (here q) h =
            (let a = others-Differ ds (subst (λ x. All (Differ x) ds) (sym q) p.0) in
              let t = tick_one format later d s in
              Observes-trans format e (InPeriod Fires e.next_time schedule at later) s t
                (tick format ds later t)
                (tick_one-Observes format e (InPeriod Fires e.next_time schedule at later) later d s
                  (λ f.
                    subst
                      (λ (x : Definition S).
                        All
                          (λ u. (x.name ≢ e.name) ⊎ InPeriod Fires e.next_time schedule at later u)
                          (due_at format x (find_or 0 x.name s.next) later))
                      q (due_at-InPeriod at later s h)))
                (tick-Observes_other format e (InPeriod Fires e.next_time schedule at later) later
                  ds t a))

        initialize-later :
            (at : Time) (ds : List (Definition S)) (s : Scheduler S)
            → Pairwise Differ ds
            → Member e ds
            → at < next_of (initialize format ds at s)
        unfolding initialize
        initialize-later at [] s p m = elim m [ ]
        initialize-later at (d ∷ ds) s p (there m) =
            initialize-later at ds (initialize_one format at d s) p.1 m
        initialize-later at (d ∷ ds) s p (here q) =
            (let a = others-Differ ds (subst (λ x. All (Differ x) ds) (sym q) p.0) in
              let first = ap (find_or 0 e.name) (initialize_one-insert at d s) in
              let own =
                subst
                  (λ (x : Definition S).
                    find_or 0 e.name (insert x.name (x.next_time at) s.next) ≡ e.next_time at)
                  q (find_or-insert 0 e.name (e.next_time at) s.next) in
              subst (λ n. at < n)
                (sym (initialize-other at ds (initialize_one format at d s) a ∙ first ∙ own))
                (schedule.later at))

        tick_all-later :
            (at : Time) (ticks : List Time) (ds : List (Definition S)) (s : Scheduler S)
            → Pairwise Differ ds
            → Member e ds
            → at < next_of s
            → last_time at ticks < next_of (tick_all format ds ticks s)
        unfolding tick_all
        tick_all-later at [] ds s p m h = h
        tick_all-later at (t ∷ ticks) ds s p m h =
            tick_all-later t ticks ds (tick format ds t s) p m (tick-later t ds s p m)

-- In a run of a scheduler that New returned, for a definition whose schedule always fires again (its
-- Next gives the first later instant of the schedule, which excludes @every and an expression that never
-- fires): what the next tick observes as triggered of the definition, whatever its options and the
-- other definitions, is at instants of its schedule that lie after the last tick so far, or after the
-- start of the run if there was none, and not after the tick itself. So no instant is fired by two
-- ticks, nor by initialize and a tick, nor early, and no definition disturbs another.
pub run_fires_later :
    {S : Type 0} (format : Time → String) (Fires : Time → Type 0) (store : Option S)
    (given : List (Option (Definition S))) (interval : Duration) (started : Started S)
    (d : Definition S) (schedule : IsSchedule Fires d.next_time) (first : Time) (ticks : List Time)
    (later : Time)
    → new_scheduler store given interval ≡ ok started
    → Member d started.definitions
    → Observes d
        (InPeriod Fires d.next_time schedule (last_time first ticks) later)
        (run format started first ticks)
        (tick format started.definitions later (run format started first ticks))
unfolding run
run_fires_later format Fires store given interval started d schedule first ticks later made m =
    tick-Observes format d Fires schedule (last_time first ticks) later started.definitions
      (run format started first ticks) distinct m
      (tick_all-later format d Fires schedule first ticks started.definitions
        (initialize format started.definitions first started.scheduler) distinct m
        (initialize-later format d Fires schedule first started.definitions started.scheduler
          distinct m))
  where
    distinct : Pairwise Differ started.definitions
    distinct = new_scheduler-distinct store given interval started made
