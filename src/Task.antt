-- ===== src/Task.antt =====
-- task/task.go: the specification of a task, its validation, and the retry policy.
-- Durations are counted in nanoseconds and may be negative, as in Go. Above zero the test of the loop
-- keeps the doubling below the maximum, so it cannot leave Go's int64.
pub mod Backoff
pub mod Enqueue
pub mod Registry
use ody.Base.{
  String, ℤ, Option, ℕ, if◌then◌else◌, suc, ◌==◌, ◌*◌, is_nonpos, ltb, some, ◌/◌, to_nat, ◌-◌, zero,
  not, is_some, none, string_eq, pos, int_ltb, negsuc, ◌^◌,
}
use ody.Execution.{Error, CreateExecution, Duration, Time, Execution, Result, message}

-- `retry == nil` is `none`; a policy maps the attempt to a delay.
pub record Specification : Type 0 where
  pub name : String
  pub version : ℤ
  pub max_attempts : ℤ
  pub timeout : Duration
  pub retry : Option (ℤ → Duration)

unfoldable pub validate : Specification → Option Error
validate spec =
    if spec.name == ""
    then some (message "task name is empty")
    else if is_nonpos spec.version
    then some (message "task version must be positive")
    else if is_nonpos spec.max_attempts
    then some (message "task max attempts must be positive")
    else if not (is_some spec.retry)
    then some (message "task retry policy is nil")
    else none

-- `delay *= 2`: below zero the product leaves int64, and wraps around, below -(2 ^ 62).
unfoldable pub double : Duration → Duration
double (pos n) = pos (n * 2)
double (negsuc n) = if ltb n (2 ^ 62) then negsuc (suc n * 2 - 1) else pos (2 ^ 64 - suc n * 2)

-- `maximum/2`, which rounds toward zero.
unfoldable pub half : Duration → Duration
half (pos n) = pos (n / 2)
half (negsuc zero) = pos 0
half (negsuc (suc n)) = negsuc ((suc (suc n)) / 2 - 1)

-- `for i := 1; i < attempt && delay < maximum/2; i++ { delay *= 2 }`, over the rounds left.
unfoldable pub double_below : Duration → ℕ → Duration → Duration
unfolding double half
double_below maximum zero delay = delay
double_below maximum (suc rounds) delay =
    let more = double_below maximum rounds (double delay) in
    if int_ltb delay (half maximum) then more else delay

-- The rounds of the loop: `attempt` is raised to 1 first.
unfoldable pub rounds_of : ℤ → ℕ
rounds_of attempt = if is_nonpos attempt then 0 else to_nat attempt - 1

unfoldable pub exponential_backoff : Duration → Duration → ℤ → Duration
unfolding double_below rounds_of
exponential_backoff base maximum attempt =
    let delay = double_below maximum (rounds_of attempt) base in
    if int_ltb maximum delay then maximum else delay
