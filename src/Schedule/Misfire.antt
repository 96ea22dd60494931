-- ===== src/Schedule/Misfire.antt =====
-- MisfireLatest in initialize (schedule/schedule.go): the instant that it keeps of those missed.
use ody.Base.{
  List, ℤ, Member, length, Pairwise, ◌<◌, All, ◌≤◌, inl, ◌∷◌, inr, here, arith, there, All-of_mem,
  All-mem, [], ◌≡◌, pos, refl, suc, subst, negsuc, zero,
}
use ody.Schedule.{occurrences, limit_of, initial_due, latest, last_only}
use ody.Schedule.Occurrences.{IsSchedule, InPeriod, occurrences_sound, occurrences_complete}
use ody.Schedule.Ticks.{last_only-All}
use ody.Execution.{Time}

-- The last of an increasing list is not before any of its elements.
last_only-latest :
    {x : Time} (ts : List Time) → Member x ts → Pairwise ◌<◌ ts → All (λ t. x ≤ t) (last_only ts)
unfolding last_only
last_only-latest [] m increasing = tt
last_only-latest (t ∷ []) (here e) increasing = (omega (arith, e), tt)
last_only-latest (t ∷ []) (there m) increasing = elim m [ ]
last_only-latest (t ∷ u ∷ rest) (there m) increasing = last_only-latest (u ∷ rest) m increasing.1
last_only-latest {x} (t ∷ u ∷ rest) (here e) increasing =
    last_only-All (λ v. x ≤ v) (u ∷ rest)
      (All-of_mem (λ v. x ≤ v) (u ∷ rest)
        (λ v m. omega (arith, e, All-mem (λ w. t < w) increasing.0 m)))

-- Of instants, if there are any, the last one alone is kept.
last_only-one :
    {x : Time} (ts : List Time) → Member x ts → (t : Time) × (last_only ts ≡ t ∷ []) × Member t ts
unfolding last_only
last_only-one [] m = elim m [ ]
last_only-one (t ∷ []) m = (t, refl, here refl)
last_only-one (t ∷ u ∷ rest) m =
    let (v, e, n) = last_only-one (u ∷ rest) (here refl) in (v, e, there n)

first_of : (ts : List Time) → 0 < length ts → (t : Time) × Member t ts
first_of [] h = absurd (omega (arith, h))
first_of (t ∷ rest) h = (t, here refl)

limit_of-pos : (limit : ℤ) → 0 < limit_of limit
unfolding limit_of
limit_of-pos (pos zero) = omega arith
limit_of-pos (pos (suc n)) = omega arith
limit_of-pos (negsuc n) = omega arith

module _ (Fires : Time → Type 0) (next_time : Time → Time) (schedule : IsSchedule Fires next_time)
    (after through x : Time) (limit : ℤ) where
  abbrev missed : List Time
  missed = occurrences next_time after through limit

  -- When fewer instants than the limit were missed, MisfireLatest keeps exactly one of those missed,
  -- and it is not before any of them: it keeps the last.
  pub latest_exact :
      InPeriod Fires next_time schedule after through x
      → length (occurrences next_time after through limit) < limit_of limit
      → (t : Time) × (initial_due latest (occurrences next_time after through limit) ≡ t ∷ [])
        × InPeriod Fires next_time schedule after through t
        × (x ≤ t)
  unfolding initial_due
  latest_exact inside few =
      elim (occurrences_complete Fires next_time schedule after through x limit inside) [
        | inr (full, before) ↦ absurd (omega (arith, few, full))
        | inl m ↦
            (let (t, e, n) = last_only-one missed m in
              let (sound, increasing, bound) =
                occurrences_sound Fires next_time schedule after through limit in
              (
                t,
                e,
                All-mem (InPeriod Fires next_time schedule after through) sound n,
                (subst (All (λ u. x ≤ u)) e (last_only-latest missed m increasing)).0,
              ))
      ]

  -- When the limit cuts off an instant, MisfireLatest still keeps exactly one: the last of as many
  -- missed instants as the limit allows, which is before the one cut off. What it keeps is then not
  -- the last of the instants missed.
  pub latest_cut :
      InPeriod Fires next_time schedule after through x
      → ¬ Member x (occurrences next_time after through limit)
      → (t : Time) × (initial_due latest (occurrences next_time after through limit) ≡ t ∷ [])
        × InPeriod Fires next_time schedule after through t
        × (length (occurrences next_time after through limit) ≡ limit_of limit)
        × All (λ u. u ≤ t) (occurrences next_time after through limit)
        × (t < x)
  unfolding initial_due
  latest_cut inside cut =
      elim (occurrences_complete Fires next_time schedule after through x limit inside) [
        | inl m ↦ absurd (cut m)
        | inr (full, before) ↦
            (let (u, m) = first_of missed (omega (arith, full, limit_of-pos limit)) in
              let (t, e, n) = last_only-one missed m in
              let (sound, increasing, bound) =
                occurrences_sound Fires next_time schedule after through limit in
              (
                t,
                e,
                All-mem (InPeriod Fires next_time schedule after through) sound n,
                full,
                All-of_mem (λ v. v ≤ t) missed
                    (λ v k. (subst (All (λ u. v ≤ u)) e (last_only-latest missed k increasing)).0),
                All-mem (λ u. u < x) before n,
              ))
      ]
