-- ===== src/Schedule/Ticks.antt =====
-- tick (schedule/schedule.go): which instants two ticks of one definition fire.
use ody.Base.{
  List, find_or, String, All, Map, ◌<◌, ◌∷◌, insert, Bool-cases, ◌-◌, ◌≡◌, ltb, arith, [],
  string_eq, inl, ltb→lt, inr, subst, sym, lookup-insert_self, refl,
}
use ody.Schedule.{
  Definition, Scheduler, tick_one, tick_due, due_at, last_only, MisfirePolicy, catch_up, latest,
  misfire_skip,
}
use ody.Schedule.Occurrences.{IsSchedule, InPeriod, occurrences_sound}
use ody.Execution.{Time}

pub last_only-All : (P : Time → Type 0) (ts : List Time) → All P ts → All P (last_only ts)
unfolding last_only
last_only-All P [] a = tt
last_only-All P (t ∷ []) a = a
last_only-All P (t ∷ u ∷ rest) a = last_only-All P (u ∷ rest) a.1

pub tick_due-All :
    (P : Time → Type 0) (policy : MisfirePolicy) (ts : List Time)
    → All P ts
    → All P (tick_due policy ts)
unfolding tick_due
tick_due-All P catch_up ts a = a
tick_due-All P latest ts a = last_only-All P ts a
tick_due-All P misfire_skip ts a = last_only-All P ts a

pub find_or-insert :
    (d : Time) (k : String) (t : Time) (m : Map String Time) → find_or d k (insert k t m) ≡ t
unfolding find_or
find_or-insert d k t m = rw (find_or, lookup-insert_self k t m) refl

module _ {S : Type 0} (format : Time → String) (Fires : Time → Type 0) (d : Definition S)
    (schedule : IsSchedule Fires d.next_time) where
  -- After the turn of a tick, the next instant of the definition lies after the tick.
  pub tick_one_later :
      (at : Time) (s : Scheduler S) → at < find_or 0 d.name (tick_one format at d s).next
  unfolding tick_one
  tick_one_later at s = elim (Bool-cases (ltb at (find_or 0 d.name s.next))) [
    | inl t ↦ rw t (ltb→lt at _ t)
    | inr f ↦
        rw f (
          subst (λ n. at < n) (sym (find_or-insert 0 d.name (d.next_time at) _))
            (schedule.later at))
  ]

  pub InPeriod-later :
      (at next later : Time) (ts : List Time)
      → at < next
      → All (InPeriod Fires d.next_time schedule (next - 1) later) ts
      → All (InPeriod Fires d.next_time schedule at later) ts
  InPeriod-later at next later [] h a = tt
  InPeriod-later at next later (t ∷ ts) h a =
      ((a.0.0, omega (arith, a.0.1), a.0.2), InPeriod-later at next later ts h a.1)

  -- Whatever the misfire policy, what a tick fires after a tick at `at` are instants of the
  -- schedule after `at`, and none after the later tick: no instant is fired by both, or early.
  pub tick_fires_later :
      (at later : Time) (s : Scheduler S)
      → All
          (InPeriod Fires d.next_time schedule at later)
          (due_at format d (find_or 0 d.name (tick_one format at d s).next) later)
  unfolding due_at
  tick_fires_later at later s =
      let next = find_or 0 d.name (tick_one format at d s).next in
      tick_due-All _ d.options.misfire _ (
        InPeriod-later at next later _ (tick_one_later at s)
          (occurrences_sound Fires d.next_time schedule (next - 1) later d.options.max_catch_up).0)
