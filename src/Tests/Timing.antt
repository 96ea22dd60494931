-- ===== src/Tests/Timing.antt =====
-- The theorems on the scheduler (schedule/schedule.go) and the retry policy (task/task.go), at a
-- schedule that fires at each instant and at small numbers.
use ody.Schedule.Observed.{Observes}
use ody.Schedule.Lifetime.{run_fires_later}
use ody.Schedule.Configure.{run, Started, new_scheduler, accept_definitions}
use Prim.Native.Nat.{suc, ℕ}
use ody.Base.{
  suc, ℕ, All, Member, arith, pos, ◌∷◌, none, [], Pairwise, ◌⊎◌, ◌≤◌, ◌≡◌, string_eq, false, ◌<◌,
  length, here, there, some, refl, negsuc,
}
use ody.Schedule.{Definition, latest, allow, occurrences, limit_of, tick}
use ody.Schedule.Occurrences.{IsSchedule, InPeriod, occurrences_sound, occurrences_complete}
use ody.Schedule.Misfire.{latest_exact, latest_cut}
use ody.Schedule.{occurrences_from, initial_due}
use ody.Task.{exponential_backoff, double_below, double, half, rounds_of}
use ody.Task.Backoff.{backoff_bounds, backoff_exact}
use ody.Execution.{Time, ok}

abbrev Always : Time → Type 0
Always t = Unit

each_instant : IsSchedule Always suc
each_instant = record { later = λ t. omega arith; fires = λ t. tt; first = λ t x h u. h }

abbrev definition : Definition ℕ
definition = record {
  name = "each";
  next_time = suc;
  options = record { misfire = latest; overlap = allow; lookback = pos 0; max_catch_up = pos 2 };
  trigger = λ at key count. (none, suc count);
  is_active = λ count. ok false;
}

occurrences_sound_example :
    All (InPeriod Always suc each_instant 3 9) (occurrences suc 3 9 (pos 2))
    × Pairwise ◌<◌ (occurrences suc 3 9 (pos 2))
    × (length (occurrences suc 3 9 (pos 2)) ≤ limit_of (pos 2))
occurrences_sound_example = occurrences_sound Always suc each_instant 3 9 (pos 2)

occurrences_complete_example :
    Member 5 (occurrences suc 3 9 (pos 2))
    ⊎ (length (occurrences suc 3 9 (pos 2)) ≡ limit_of (pos 2))
      × All (λ t. t < 5) (occurrences suc 3 9 (pos 2))
occurrences_complete_example =
    occurrences_complete Always suc each_instant 3 9 5 (pos 2) (tt, omega arith, omega arith)

abbrev started : Started ℕ
started = record {
  definitions = definition ∷ [];
  interval = pos 1000000000;
  scheduler = record { next = []; store = 0; observed = [] };
}

starts : new_scheduler (some 0) (some definition ∷ []) (pos 0) ≡ ok started
unfolding new_scheduler accept_definitions
starts = refl

run_fires_later_example :
    Observes definition
      (InPeriod Always suc each_instant 6 9)
      (run (λ t. "") started 4 (5 ∷ 6 ∷ []))
      (tick (λ t. "") started.definitions 9 (run (λ t. "") started 4 (5 ∷ 6 ∷ [])))
run_fires_later_example =
    run_fires_later (λ t. "") Always (some 0) (some definition ∷ []) (pos 0) started definition
      each_instant 4 (5 ∷ 6 ∷ []) 9 starts (here refl)

backoff_bounds_example :
    (delay : ℕ) × (exponential_backoff (pos 3) (pos 20) (pos 4) ≡ pos delay)
    × (delay ≤ 20)
    × ((3 ≤ delay) ⊎ (20 ≤ delay))
backoff_bounds_example = backoff_bounds 3 20 (pos 4)

-- A negative base falls below both.
doubles_below_zero : exponential_backoff (negsuc 0) (pos 100) (pos 2) ≡ negsuc 1
unfolding exponential_backoff double_below double half rounds_of
doubles_below_zero = refl

backoff_exact_example : exponential_backoff (pos 3) (pos 20) (pos 3) ≡ pos 12
backoff_exact_example = backoff_exact 3 20 1 (omega arith)

few_missed : length (occurrences suc 3 5 (pos 4)) < limit_of (pos 4)
unfolding occurrences occurrences_from limit_of
few_missed = omega arith

latest_exact_example :
    (t : Time) × (initial_due latest (occurrences suc 3 5 (pos 4)) ≡ t ∷ [])
    × InPeriod Always suc each_instant 3 5 t
    × (4 ≤ t)
latest_exact_example =
    latest_exact Always suc each_instant 3 5 4 (pos 4) (tt, omega arith, omega arith) few_missed

-- The limit of the example of docs/scheduling.md.
cut_off : ¬ Member 9 (occurrences suc 3 9 (pos 1))
unfolding occurrences occurrences_from limit_of
cut_off (here e) = absurd (omega (arith, e))
cut_off (there m) = elim m [ ]

latest_cut_example :
    (t : Time) × (initial_due latest (occurrences suc 3 9 (pos 1)) ≡ t ∷ [])
    × InPeriod Always suc each_instant 3 9 t
    × (length (occurrences suc 3 9 (pos 1)) ≡ limit_of (pos 1))
    × All (λ u. u ≤ t) (occurrences suc 3 9 (pos 1))
    × (t < 9)
latest_cut_example =
    latest_cut Always suc each_instant 3 9 9 (pos 1) (tt, omega arith, omega arith) cut_off
