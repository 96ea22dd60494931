-- ===== src/Schedule.antt =====
-- schedule/schedule.go: the scheduler's occurrences, misfire and overlap policies.
-- `cron.Schedule` is its method `Next`, a function of an instant. `S` is what triggers write to,
-- the store and the engine; `format` stands for `UTC().Format(time.RFC3339Nano)`.
pub mod Occurrences
pub mod Ticks
pub mod Misfire
pub mod Triggers
pub mod Configure
pub mod Bind
pub mod Observed
pub mod Distinct
pub mod Lifetime
use Prim.Native.String
use ody.Base.{
  String, ℤ, Option, List, ℕ, Map, Bool, [], if◌then◌else◌, ◌∷◌, ◌++◌, insert, ◌-◌, find_or, pos,
  false, suc, is_nonpos, some, ltb, negsuc, true, not, string_eq, to_nat, ◌+◌, ◌&&◌, zero, none,
}
use ody.Execution.{Error, Duration, Time, Result, err, ok}

pub data MisfirePolicy : Type 0 where
  misfire_skip latest catch_up : MisfirePolicy

pub data OverlapPolicy : Type 0 where
  allow overlap_skip : OverlapPolicy

pub record DefinitionOptions : Type 0 where
  pub misfire : MisfirePolicy
  pub overlap : OverlapPolicy
  pub lookback : Duration
  pub max_catch_up : ℤ

pub record Definition (S : Type 0) : Type 0 where
  pub name : String
  pub next_time : Time → Time
  pub options : DefinitionOptions
  pub trigger : Time → String → S → Option Error × S
  pub is_active : S → Result Bool

-- A call of `Observer.Triggered`.
pub record Triggered : Type 0 where
  pub name : String
  pub scheduled_at : Time
  pub failure : Option Error

pub record Scheduler (S : Type 0) : Type 0 where
  pub next : Map String Time
  pub store : S
  pub observed : List Triggered

-- The loop of occurrences, from the instant `next`, over the results that the limit leaves.
unfoldable pub occurrences_from : (Time → Time) → Time → Time → ℕ → List Time
occurrences_from next_time next through zero = []
occurrences_from next_time next through (suc left) =
    let rest = occurrences_from next_time (next_time next) through left in
    if ltb through next then [] else next ∷ rest

unfoldable pub limit_of : ℤ → ℕ
limit_of limit = if is_nonpos limit then 100 else to_nat limit

unfoldable pub occurrences : (Time → Time) → Time → Time → ℤ → List Time
unfolding occurrences_from limit_of
occurrences next_time after through limit =
    occurrences_from next_time (next_time after) through (limit_of limit)

-- `due[len(due)-1:]` of a list that is not empty.
unfoldable pub last_only : List Time → List Time
last_only [] = []
last_only (t ∷ []) = t ∷ []
last_only (t ∷ u ∷ rest) = last_only (u ∷ rest)

-- What tick keeps of the due instants: the last one, unless the policy is to catch up.
unfoldable pub tick_due : MisfirePolicy → List Time → List Time
unfolding last_only
tick_due catch_up due = due
tick_due latest due = last_only due
tick_due misfire_skip due = last_only due

-- What initialize keeps.
unfoldable pub initial_due : MisfirePolicy → List Time → List Time
unfolding last_only
initial_due latest due = last_only due
initial_due _ due = due

abbrev subtract : Time → Duration → Time
subtract t (pos n) = t - n
subtract t (negsuc n) = t + suc n

abbrev not_skip : MisfirePolicy → Bool
not_skip misfire_skip = false
not_skip _ = true

module _ {S : Type 0} (format : Time → String) where
  abbrev observe : Scheduler S → Triggered → Scheduler S
  observe s event = record s { observed = s.observed ++ event ∷ [] }

  unfoldable pub trigger_key : Definition S → Time → String
  trigger_key d at = String.◌++◌ "schedule:" (String.◌++◌ d.name (String.◌++◌ ":" (format at)))

  unfoldable pub start_trigger : Definition S → Time → Scheduler S → Scheduler S
  unfolding trigger_key
  start_trigger d at s =
      let (failure, store) = d.trigger at (trigger_key d at) s.store in
      observe (record s { store = store })
        (record { name = d.name; scheduled_at = at; failure = failure })

  -- OverlapSkip: an error of `isActive`, or an active run, ends the firing.
  unfoldable pub fire_if_idle : Definition S → Time → Result Bool → Scheduler S → Scheduler S
  unfolding start_trigger
  fire_if_idle d at (err e) s =
      observe s (record { name = d.name; scheduled_at = at; failure = some e })
  fire_if_idle d at (ok true) s =
      observe s (record { name = d.name; scheduled_at = at; failure = none })
  fire_if_idle d at (ok false) s = start_trigger d at s

  unfoldable pub fire : Definition S → Time → Scheduler S → Scheduler S
  unfolding fire_if_idle start_trigger
  fire d at s = elim d.options.overlap [
    | allow ↦ start_trigger d at s
    | overlap_skip ↦ fire_if_idle d at (d.is_active s.store) s
  ]

  unfoldable pub fire_all : Definition S → List Time → Scheduler S → Scheduler S
  unfolding fire
  fire_all d [] s = s
  fire_all d (at ∷ rest) s = fire_all d rest (fire d at s)

  abbrev set_next : Definition S → Time → Scheduler S → Scheduler S
  set_next d at s = record s { next = insert d.name (d.next_time at) s.next }

  -- The instants that one definition fires at a tick.
  unfoldable pub due_at : Definition S → Time → Time → List Time
  unfolding occurrences tick_due
  due_at d next at =
      tick_due d.options.misfire (occurrences d.next_time (next - 1) at d.options.max_catch_up)

  -- One turn of the loop of tick.
  unfoldable pub tick_one : Time → Definition S → Scheduler S → Scheduler S
  unfolding due_at fire_all
  tick_one at d s =
      let next = find_or 0 d.name s.next in
      if ltb at next then s else set_next d at (fire_all d (due_at d next at) s)

  unfoldable pub tick : List (Definition S) → Time → Scheduler S → Scheduler S
  unfolding tick_one
  tick [] at s = s
  tick (d ∷ rest) at s = tick rest at (tick_one at d s)

  unfoldable pub initialize_one : Time → Definition S → Scheduler S → Scheduler S
  unfolding occurrences initial_due fire_all
  initialize_one at d s = set_next d at (
      if not (is_nonpos d.options.lookback) && not_skip d.options.misfire
      then fire_all d
          (initial_due d.options.misfire
            (occurrences d.next_time (subtract at d.options.lookback) at d.options.max_catch_up))
          s
      else s)

  unfoldable pub initialize : List (Definition S) → Time → Scheduler S → Scheduler S
  unfolding initialize_one
  initialize [] at s = s
  initialize (d ∷ rest) at s = initialize rest at (initialize_one at d s)
