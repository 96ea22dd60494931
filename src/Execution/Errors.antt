-- ===== src/Execution/Errors.antt =====
-- execution/model.go and task/registry.go: the texts of errors, and what `errors.Is` and `errors.As`
-- find in an error, which look through every way of wrapping.
use ody.Base.{String, Bool, Option, ◌||◌, true, some, false, none}
use Prim.Native.String
use ody.Execution.{
  Error, Duration, not_found, lease_lost, active, pipeline_execution, conflict, unknown_task,
  canceled, deadline_exceeded, message, wrapped, detailed, joined, permanent, retry_after,
}

-- `Error()`, the text of an error.
unfoldable pub error_text : Error → String
error_text not_found = "execution not found"
error_text lease_lost = "execution lease lost"
error_text active = "execution is active"
error_text pipeline_execution = "pipeline execution requires pipeline coordinator"
error_text conflict = "state revision conflict"
error_text unknown_task = "unknown task"
error_text canceled = "context canceled"
error_text deadline_exceeded = "context deadline exceeded"
error_text (message text) = text
error_text (wrapped text e) = String.◌++◌ text (String.◌++◌ ": " (error_text e))
error_text (detailed e text) = String.◌++◌ (error_text e) (String.◌++◌ ": " text)
error_text (joined e f) = String.◌++◌ (error_text e) (String.◌++◌ "\n" (error_text f))
error_text (permanent e) = error_text e
error_text (retry_after e delay) = error_text e

-- Whether the error, or one that it wraps, passes the test: `errors.Is` and `errors.As`.
unfoldable pub finds : (Error → Bool) → Error → Bool
finds test not_found = test not_found
finds test lease_lost = test lease_lost
finds test active = test active
finds test pipeline_execution = test pipeline_execution
finds test conflict = test conflict
finds test unknown_task = test unknown_task
finds test canceled = test canceled
finds test deadline_exceeded = test deadline_exceeded
finds test (message text) = test (message text)
finds test (wrapped text e) = test (wrapped text e) || finds test e
finds test (detailed e text) = test (detailed e text) || finds test e
finds test (joined e f) = test (joined e f) || finds test e || finds test f
finds test (permanent e) = test (permanent e) || finds test e
finds test (retry_after e delay) = test (retry_after e delay) || finds test e

abbrev is_conflict_itself : Error → Bool
is_conflict_itself conflict = true
is_conflict_itself e = false

unfoldable pub is_conflict : Error → Bool
unfolding finds
is_conflict e = finds is_conflict_itself e

abbrev is_not_found_itself : Error → Bool
is_not_found_itself not_found = true
is_not_found_itself e = false

unfoldable pub is_not_found : Error → Bool
unfolding finds
is_not_found e = finds is_not_found_itself e

abbrev is_canceled_itself : Error → Bool
is_canceled_itself canceled = true
is_canceled_itself e = false

unfoldable pub is_canceled : Error → Bool
unfolding finds
is_canceled e = finds is_canceled_itself e

abbrev is_permanent_itself : Error → Bool
is_permanent_itself (permanent e) = true
is_permanent_itself e = false

unfoldable pub is_permanent : Error → Bool
unfolding finds
is_permanent e = finds is_permanent_itself e

-- The delay of the first retryAfterError, in the order of `errors.As`.
unfoldable pub retry_delay : Error → Option Duration
retry_delay (retry_after e delay) = some delay
retry_delay (wrapped text e) = retry_delay e
retry_delay (detailed e text) = retry_delay e
retry_delay (permanent e) = retry_delay e
retry_delay (joined e f) =
    let right = retry_delay f in elim (retry_delay e) [ some delay ↦ some delay | none ↦ right ]
retry_delay e = none
