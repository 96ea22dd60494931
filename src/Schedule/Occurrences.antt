-- ===== src/Schedule/Occurrences.antt =====
-- `occurrences` (schedule/schedule.go): the instants at which a schedule fires in a period.
use ody.Base.{
  ◌<◌, List, ℕ, ◌≤◌, All, Member, ◌∷◌, Pairwise, ◌⊎◌, arith, suc, length, [], Bool-cases, ◌≡◌, ltb,
  inr, inl, zero, refl, ltb→lt, ℤ, ℕ_discrete, here, there, ap,
}
use ody.Schedule.{occurrences_from, occurrences, limit_of}
use ody.Execution.{Time}

-- `Next` of github.com/robfig/cron returns the first instant after the given one at which the
-- schedule fires; the schedule always fires again.
pub record IsSchedule (Fires : Time → Type 0) (next_time : Time → Time) : Type 0 where
  pub later : (t : Time) → t < next_time t
  pub fires : (t : Time) → Fires (next_time t)
  pub first : (t x : Time) → t < x → Fires x → next_time t ≤ x

occurrences_from_bounded :
    (next_time : Time → Time) (next through : Time) (left : ℕ)
    → length (occurrences_from next_time next through left) ≤ left
unfolding occurrences_from
occurrences_from_bounded next_time next through zero = omega arith
occurrences_from_bounded next_time next through (suc left) =
    ground (arith, occurrences_from_bounded next_time (next_time next) through left)

module _ (Fires : Time → Type 0) (next_time : Time → Time)
    (schedule : IsSchedule Fires next_time) where
  abbrev pub InPeriod : Time → Time → Time → Type 0
  InPeriod after through t = Fires t × (after < t) × (t ≤ through)

  InPeriod-mono :
      (after later through : Time) (ts : List Time)
      → after ≤ later
      → All (InPeriod later through) ts
      → All (InPeriod after through) ts
  InPeriod-mono after later through [] h a = tt
  InPeriod-mono after later through (t ∷ ts) h a =
      ((a.0.0, omega (arith, a.0.1), a.0.2), InPeriod-mono after later through ts h a.1)

  All-after :
      (t through : Time) (ts : List Time) → All (InPeriod t through) ts → All (λ u. t < u) ts
  All-after t through [] a = tt
  All-after t through (u ∷ ts) a = (a.0.1, All-after t through ts a.1)

  occurrences_from_sound :
      (after through : Time) (left : ℕ)
      → All (InPeriod after through) (occurrences_from next_time (next_time after) through left)
        × Pairwise ◌<◌ (occurrences_from next_time (next_time after) through left)
  unfolding occurrences_from
  occurrences_from_sound after through zero = (tt, tt)
  occurrences_from_sound after through (suc left) =
      elim (Bool-cases (ltb through (next_time after))) [
        | inl t ↦ rw t (tt, tt)
        | inr f ↦
            (let n = next_time after in
              let (inside, increasing) = occurrences_from_sound (next_time after) through left in
              rw f (
                (
                  (schedule.fires after, schedule.later after, ground arith),
                  InPeriod-mono after n through _ (omega (arith, schedule.later after)) inside,
                ),
                (All-after n through _ inside, increasing),
              ))
      ]

  -- An instant of the period that is left out comes after all that are returned, which are as many
  -- as the limit allows.
  occurrences_from_complete :
      (after through x : Time) (left : ℕ)
      → InPeriod after through x
      → Member x (occurrences_from next_time (next_time after) through left)
        ⊎ (length (occurrences_from next_time (next_time after) through left) ≡ left)
          × All (λ t. t < x) (occurrences_from next_time (next_time after) through left)
  unfolding occurrences_from
  occurrences_from_complete after through x zero p = inr (refl, tt)
  occurrences_from_complete after through x (suc left) p =
      let n = next_time after in
      let n_le : n ≤ x = schedule.first after x p.1 p.0 in
      elim (Bool-cases (ltb through n)) [
        | inl t ↦ absurd (omega (arith, ltb→lt through n t, n_le, p.2))
        | inr f ↦ elim (ℕ_discrete x n) [
          | yes e ↦ rw f (inl (here e))
          | no ne ↦
              rw f
                (elim (occurrences_from_complete n through x left
                  (p.0, omega (arith, n_le, ne), p.2)) [
                    | inl m ↦ inl (there m)
                    | inr (full, before) ↦ inr (ap suc full, (omega (arith, n_le, ne), before))
                  ])
        ]
      ]

  -- The instants returned are instants of the period at which the schedule fires, each once and in
  -- order, and they are no more than the limit.
  pub occurrences_sound :
      (after through : Time) (limit : ℤ)
      → All (InPeriod after through) (occurrences next_time after through limit)
        × Pairwise ◌<◌ (occurrences next_time after through limit)
        × (length (occurrences next_time after through limit) ≤ limit_of limit)
  unfolding occurrences
  occurrences_sound after through limit = (
    (occurrences_from_sound after through (limit_of limit)).0,
    (occurrences_from_sound after through (limit_of limit)).1,
    occurrences_from_bounded next_time (next_time after) through (limit_of limit),
  )

  -- An instant of the period at which the schedule fires is returned, or the limit is used up by
  -- earlier instants: what the limit cuts off is the latest.
  pub occurrences_complete :
      (after through x : Time) (limit : ℤ)
      → InPeriod after through x
      → Member x (occurrences next_time after through limit)
        ⊎ (length (occurrences next_time after through limit) ≡ limit_of limit)
          × All (λ t. t < x) (occurrences next_time after through limit)
  unfolding occurrences
  occurrences_complete after through x limit p =
      occurrences_from_complete after through x (limit_of limit) p
