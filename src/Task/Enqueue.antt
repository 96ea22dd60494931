-- ===== src/Task/Enqueue.antt =====
-- task/task.go: New with its options, EncodeInput, and Enqueue with its options.
-- `json.Marshal` of the input is given by its result; a nil option, which Go skips, is not in a list.
use ody.Base.{ℤ, Option, List, String, ◌∷◌, pos, some, none, []}
use ody.Task.{Specification, validate, exponential_backoff}
use ody.Pipeline.{trim_space}
use ody.Execution.{CreateExecution, Duration, Time, Execution, Result, ok, err, wrapped}

abbrev pub with_version : ℤ → Specification → Specification
with_version version spec = record spec { version = version }

abbrev pub with_max_attempts : ℤ → Specification → Specification
with_max_attempts attempts spec = record spec { max_attempts = attempts }

abbrev pub with_timeout : Duration → Specification → Specification
with_timeout timeout spec = record spec { timeout = timeout }

abbrev pub with_retry_policy : Option (ℤ → Duration) → Specification → Specification
with_retry_policy policy spec = record spec { retry = policy }

-- `for _, option := range options { option(&value) }`
unfoldable pub apply_all {ℓ} : {A : Type ℓ} → List (A → A) → A → A
apply_all [] value = value
apply_all (option ∷ rest) value = apply_all rest (option value)

-- The policy waits 100 milliseconds at first and 30 seconds at most.
unfoldable pub new_task : String → List (Specification → Specification) → Specification
unfolding apply_all trim_space exponential_backoff
new_task name options = apply_all options (record {
  name = trim_space name;
  version = pos 1;
  max_attempts = pos 3;
  timeout = pos 0;
  retry = some (exponential_backoff (pos 100000000) (pos 30000000000));
})

unfoldable pub encode_input : Specification → Result String → Result String
unfolding validate
encode_input spec raw = elim (validate spec) [
  | some e ↦ err e
  | none ↦ elim raw [ err e ↦ err (wrapped "encode task input" e) | ok text ↦ ok text ]
]

abbrev pub with_available_at : Time → CreateExecution → CreateExecution
with_available_at value request = record request { available_at = value }

abbrev pub with_idempotency_key : String → CreateExecution → CreateExecution
with_idempotency_key value request = record request { idempotency_key = value }

unfoldable pub task_request : Specification → String → CreateExecution
task_request spec raw = record {
  task_name = spec.name;
  task_version = spec.version;
  input = raw;
  max_attempts = spec.max_attempts;
  available_at = 0;
  idempotency_key = "";
  pipeline_run_id = none;
  node_key = "";
}

-- `create` is the store's CreateExecution.
unfoldable pub enqueue {ℓ} :
    {S : Type ℓ}
    → (CreateExecution → S → Result Execution × S)
    → Specification
    → Result String
    → List (CreateExecution → CreateExecution)
    → S
    → Result Execution × S
unfolding encode_input task_request apply_all
enqueue create spec raw options s = elim (encode_input spec raw) [
  | err e ↦ (err e, s)
  | ok text ↦ create (apply_all options (task_request spec text)) s
]
