-- ===== src/Execution.antt =====
-- execution/model.go: the persistent records, their statuses and the sentinel errors.
-- A `uuid.UUID` is its 128-bit number, with 0 for `uuid.Nil`; an instant is a number of
-- nanoseconds since Go's zero time, with 0 for the zero time; a nil `json.RawMessage` is "".
-- Where Go holds a `*T`, the model holds an `Option T`.
pub mod Errors
use ody.Base.{
  ℕ, String, Bool, true, false, ◌≡◌, ◌↔◌, ◌&&◌, Option, arith, Eq, ◌==◌, nat_eq, string_eq, int_eq,
  eq_iff, int_beq_iff, ℤ, List, ◌≢◌, ◌⊎◌, inl, inr, refl,
}

abbrev pub Uuid : Type 0
Uuid = ℕ

abbrev pub nil_uuid : Uuid
nil_uuid = 0

abbrev pub Time : Type 0
Time = ℕ

abbrev pub Duration : Type 0
Duration = ℤ

pub record TaskKey : Type 0 where
  pub name : String
  pub version : ℤ

abbrev pub task_key_beq : TaskKey → TaskKey → Bool
task_key_beq a b = a.name == b.name && a.version == b.version

pub task_key_beq_iff : (a b : TaskKey) → (task_key_beq a b ≡ true) ↔ (a ≡ b)
task_key_beq_iff a b = ground (arith, eq_iff a.name b.name, int_beq_iff a.version b.version)

instance abbrev pub task_key_eq : Eq TaskKey
task_key_eq = record { beq = task_key_beq; beq_iff = task_key_beq_iff }

pub data Status : Type 0 where
  pending blocked running retry succeeded failed cancelled : Status

-- The text of a status, by which Go compares and stores it.
unfoldable pub status_text : Status → String
status_text pending = "pending"
status_text blocked = "blocked"
status_text running = "running"
status_text retry = "retry"
status_text succeeded = "succeeded"
status_text failed = "failed"
status_text cancelled = "cancelled"

abbrev pub status_index : Status → ℕ
status_index pending = 0
status_index blocked = 1
status_index running = 2
status_index retry = 3
status_index succeeded = 4
status_index failed = 5
status_index cancelled = 6

pub status_beq_iff : (a b : Status) → ((status_index a == status_index b) ≡ true) ↔ (a ≡ b)
status_beq_iff a b = ground arith

instance abbrev pub status_eq : Eq Status
status_eq = record { beq = λ a b. status_index a == status_index b; beq_iff = status_beq_iff }

pub data RunStatus : Type 0 where
  run_pending run_running run_succeeded run_failed run_cancelled : RunStatus

unfoldable pub run_status_text : RunStatus → String
run_status_text run_pending = "pending"
run_status_text run_running = "running"
run_status_text run_succeeded = "succeeded"
run_status_text run_failed = "failed"
run_status_text run_cancelled = "cancelled"

abbrev pub run_status_index : RunStatus → ℕ
run_status_index run_pending = 0
run_status_index run_running = 1
run_status_index run_succeeded = 2
run_status_index run_failed = 3
run_status_index run_cancelled = 4

pub run_status_beq_iff :
    (a b : RunStatus) → ((run_status_index a == run_status_index b) ≡ true) ↔ (a ≡ b)
run_status_beq_iff a b = ground arith

instance abbrev pub run_status_eq : Eq RunStatus
run_status_eq = record {
  beq = λ a b. run_status_index a == run_status_index b;
  beq_iff = run_status_beq_iff;
}

-- The sentinel errors, errors with a text of their own, the ways of wrapping one with a text before
-- it or after it, and the join of two.
pub data Error : Type 0 where
  not_found lease_lost active pipeline_execution conflict : Error
  -- task.ErrUnknownTask, context.Canceled and context.DeadlineExceeded.
  unknown_task canceled deadline_exceeded : Error
  message : String → Error
  wrapped : String → Error → Error
  detailed : Error → String → Error
  joined : Error → Error → Error
  -- task.Permanent and task.RetryAfter.
  permanent : Error → Error
  retry_after : Error → Duration → Error

pub data Result {ℓ} (A : Type ℓ) : Type ℓ where
  ok : A → Result A
  err : Error → Result A

-- `if err != nil { return err }`
infixl 5 ◌>>=◌
abbrev pub ◌>>=◌ {ℓ κ} : {A : Type ℓ} {B : Type κ} → Result A → (A → Result B) → Result B
ok a >>= f = f a
err e >>= f = err e

pub ok_inj {ℓ} : {A : Type ℓ} {a b : A} → ok a ≡ ok b → a ≡ b
ok_inj h = cc

pub err_ne_ok {ℓ} : {A : Type ℓ} {e : Error} {a : A} → err e ≢ ok a
err_ne_ok h = cc

pub Result-cases {ℓ} :
    {A : Type ℓ} (r : Result A) → ((a : A) × (r ≡ ok a)) ⊎ ((e : Error) × (r ≡ err e))
Result-cases (ok a) = inl (a, refl)
Result-cases (err e) = inr (e, refl)

pub record Execution : Type 0 where
  pub id : Uuid
  pub task_name : String
  pub task_version : ℤ
  pub input : String
  pub output : String
  pub status : Status
  -- Both are positive in Go's int whenever they are stored.
  pub attempt : ℕ
  pub max_attempts : ℕ
  pub available_at : Time
  pub lease_owner : String
  pub lease_token : Uuid
  pub lease_until : Time
  pub last_error : String
  pub idempotency_key : String
  pub pipeline_run_id : Option Uuid
  pub node_key : String
  pub created_at : Time
  pub started_at : Option Time
  pub finished_at : Option Time

pub record CreateExecution : Type 0 where
  pub task_name : String
  pub task_version : ℤ
  pub input : String
  pub max_attempts : ℤ
  pub available_at : Time
  pub idempotency_key : String
  pub pipeline_run_id : Option Uuid
  pub node_key : String

pub record Cursor : Type 0 where
  pub created_at : Time
  pub id : Uuid

-- `status` is `none` for Go's empty status, which selects all.
pub record ListFilter : Type 0 where
  pub task_name : String
  pub status : Option Status
  pub pipeline_run_id : Option Uuid
  pub limit : ℤ
  pub before : Option Cursor

pub record RunFilter : Type 0 where
  pub statuses : List RunStatus
  pub limit : ℤ
  pub before : Option Cursor

pub record PipelineRun : Type 0 where
  pub id : Uuid
  pub pipeline_name : String
  pub pipeline_version : ℤ
  pub input : String
  pub status : RunStatus
  pub error : String
  pub idempotency_key : String
  -- uint64
  pub revision : ℕ
  pub created_at : Time
  pub updated_at : Time
  pub finished_at : Option Time

pub record CreatePipelineRun : Type 0 where
  pub pipeline_name : String
  pub pipeline_version : ℤ
  pub input : String
  pub idempotency_key : String

pub record RestartSubgraph : Type 0 where
  pub run_id : Uuid
  pub root_node_key : String
  pub descendant_keys : List String
  pub available_at : Time

pub data EventType : Type 0 where
  created started retried event_succeeded event_failed event_cancelled restarted : EventType

pub record Event : Type 0 where
  pub id : Uuid
  pub execution_id : Uuid
  pub kind : EventType
  pub attempt : ℕ
  pub error : String
  pub created_at : Time

pub record ExecutionCount : Type 0 where
  pub task_name : String
  pub status : Status
  pub count : ℕ

pub record PipelineCount : Type 0 where
  pub pipeline_name : String
  pub status : RunStatus
  pub count : ℕ

pub record PurgeResult : Type 0 where
  pub executions : ℕ
  pub pipeline_runs : ℕ

unfoldable pub is_terminal : Status → Bool
is_terminal succeeded = true
is_terminal failed = true
is_terminal cancelled = true
is_terminal _ = false

unfoldable pub is_terminal_run : RunStatus → Bool
is_terminal_run run_succeeded = true
is_terminal_run run_failed = true
is_terminal_run run_cancelled = true
is_terminal_run _ = false

-- Pending, retry or running.
unfoldable pub is_active : Status → Bool
is_active pending = true
is_active retry = true
is_active running = true
is_active _ = false
