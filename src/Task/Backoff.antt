-- ===== src/Task/Backoff.antt =====
-- `ExponentialBackoff` (task/task.go): bounds, growth, and the exact delay below the cap.
use ody.Base.{
  ℕ, ◌≤◌, ℤ, pos, ◌*◌, arith, suc, ◌⊎◌, ◌^◌, ◌<◌, zero, ◌/◌, ◌≡◌, lt→ltb, ◌∙◌, ap, if◌then◌else◌,
  sym, ltb, false, Bool, int_ltb, true, refl,
}
use ody.Task.{double_below, rounds_of, exponential_backoff, double, half}
use native.Mathlib.Nat.{pow-suc}

le→not_ltb : (a b : ℕ) → b ≤ a → ltb a b ≡ false
le→not_ltb a b h = ground arith

-- The loop on durations that are not negative.
doubling : ℕ → ℕ → ℕ → ℕ
doubling maximum zero delay = delay
doubling maximum (suc rounds) delay =
    let more = doubling maximum rounds (delay * 2) in
    if ltb delay (maximum / 2) then more else delay

abbrev capped : ℕ → ℕ → ℤ → ℕ
capped base maximum attempt =
    let delay = doubling maximum (rounds_of attempt) base in
    if ltb maximum delay then maximum else delay

if_pos : (b : Bool) (m n : ℕ) → (if b then pos m else pos n) ≡ pos (if b then m else n)
if_pos true m n = refl
if_pos false m n = refl

double_below_pos :
    (maximum rounds delay : ℕ)
    → double_below (pos maximum) rounds (pos delay) ≡ pos (doubling maximum rounds delay)
unfolding double_below double half doubling
double_below_pos maximum zero delay = refl
double_below_pos maximum (suc rounds) delay =
    ap (λ d. if ltb delay (maximum / 2) then d else pos delay)
      (double_below_pos maximum rounds (delay * 2))
    ∙ if_pos (ltb delay (maximum / 2)) (doubling maximum rounds (delay * 2)) delay

exponential_backoff_pos :
    (base maximum : ℕ) (attempt : ℤ)
    → exponential_backoff (pos base) (pos maximum) attempt ≡ pos (capped base maximum attempt)
unfolding exponential_backoff
exponential_backoff_pos base maximum attempt =
    ap (λ d. if int_ltb (pos maximum) d then pos maximum else d)
      (double_below_pos maximum (rounds_of attempt) base)
    ∙ if_pos (ltb maximum (doubling maximum (rounds_of attempt) base)) maximum
        (doubling maximum (rounds_of attempt) base)

doubling_ge : (maximum rounds delay : ℕ) → delay ≤ doubling maximum rounds delay
unfolding doubling
doubling_ge maximum zero delay = omega arith
doubling_ge maximum (suc rounds) delay = ground (arith, doubling_ge maximum rounds (delay * 2))

-- Of a base and a cap that are not negative, each delay is not negative, lies between the smaller of
-- the base and the cap, and the cap.
pub backoff_bounds :
    (base maximum : ℕ) (attempt : ℤ)
    → (delay : ℕ) × (exponential_backoff (pos base) (pos maximum) attempt ≡ pos delay)
      × (delay ≤ maximum)
      × ((base ≤ delay) ⊎ (maximum ≤ delay))
backoff_bounds base maximum attempt = (
  capped base maximum attempt,
  exponential_backoff_pos base maximum attempt,
  ground (arith, doubling_ge maximum (rounds_of attempt) base),
  ground (arith, doubling_ge maximum (rounds_of attempt) base),
)

rounds_of_pos : (n : ℕ) → rounds_of (pos (suc n)) ≡ n
unfolding rounds_of
rounds_of_pos n = omega arith

pow_swap : (delay k : ℕ) → delay * 2 ^ suc k ≡ delay * 2 * 2 ^ k
pow_swap delay k = ap (λ t. delay * t) (pow-suc 2 k) ∙ grind arith

pow_double : (delay k : ℕ) → delay * 2 ^ suc k ≡ 2 * (delay * 2 ^ k)
pow_double delay k = ap (λ t. delay * t) (pow-suc 2 k) ∙ grind arith

delay_le_pow : (delay k : ℕ) → delay ≤ delay * 2 ^ k
delay_le_pow delay zero = omega arith
delay_le_pow delay (suc k) = omega (arith, pow_swap delay k, delay_le_pow (delay * 2) k)

doubling-eq :
    (maximum k delay : ℕ)
    → delay * 2 ^ k < maximum / 2
    → doubling maximum (suc k) delay ≡ delay * 2 ^ suc k
unfolding doubling
doubling-eq maximum zero delay h = ground arith
doubling-eq maximum (suc k) delay h =
    let below : delay < maximum / 2 = omega (arith, delay_le_pow delay (suc k)) in
    let doubled : delay * 2 * 2 ^ k < maximum / 2 = omega (arith, pow_swap delay k) in
    let rest = doubling-eq maximum k (delay * 2) doubled in
    ap (λ b. if b then doubling maximum (suc k) (delay * 2) else delay)
      (lt→ltb delay (maximum / 2) below)
    ∙ rest
    ∙ sym (pow_swap delay (suc k))

-- Of a base and a cap that are not negative: while the delay before it is below half of the cap,
-- attempt `k + 2` waits `base * 2 ^ (k + 1)`.
pub backoff_exact :
    (base maximum k : ℕ)
    → base * 2 ^ k < maximum / 2
    → exponential_backoff (pos base) (pos maximum) (pos (suc (suc k))) ≡ pos (base * 2 ^ suc k)
backoff_exact base maximum k h =
    let rounds : doubling maximum (rounds_of (pos (suc (suc k)))) base ≡ base * 2 ^ suc k =
      ap (λ n. doubling maximum n base) (rounds_of_pos (suc k)) ∙ doubling-eq maximum k base h in
    let small : base * 2 ^ suc k ≤ maximum = omega (arith, pow_double base k) in
    exponential_backoff_pos base maximum (pos (suc (suc k)))
    ∙ ap pos (
        ap (λ d. if ltb maximum d then maximum else d) rounds
        ∙ ap (λ b. if b then maximum else base * 2 ^ suc k)
            (le→not_ltb maximum (base * 2 ^ suc k) small))
