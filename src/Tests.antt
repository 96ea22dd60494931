-- ===== src/Tests.antt =====
-- Concrete stores, pipelines and schedules, and the theorems at them.
pub mod Queue
pub mod Graph
pub mod Advance
pub mod Timing
pub mod Polling
pub mod Keyspace
pub mod Transactions
pub mod Calls
use ody.Base.{ℕ, suc, pos, none, List, [], ◌∷◌, arith}
use ody.Execution.{TaskKey, Execution, CreateExecution}
use ody.Memory.{Env, IsFaithful, MemoryStore, new_memory_store}
use ody.Memory.Create.{new_execution}
use ody.Memory.Claim.{deliver}
use ody.Memory.Valid.{IsValid}
use ody.Memory.Valid.Reachable.{Call, call_create, call_claim, run_calls, reachable-IsValid}

-- A clock that is read once in each nanosecond, and a counter for `uuid.New`.
abbrev pub env : Env
env = record { clock = suc; mint = suc; uuid_text = λ n. "" }

pub env-IsFaithful : IsFaithful env
env-IsFaithful = record {
  mint_ne_nil = λ n p. omega (arith, p);
  mint_injective = λ m n p. omega (arith, p);
}

abbrev pub request : CreateExecution
request = record {
  task_name = "mail";
  task_version = pos 1;
  input = "{}";
  max_attempts = pos 3;
  available_at = 0;
  idempotency_key = "";
  pipeline_run_id = none;
  node_key = "";
}

abbrev pub keys : List TaskKey
keys = record { name = "mail"; version = pos 1 } ∷ []

-- Two executions wait: 1, which is created first, and 3.
abbrev pub two_created : List Call
two_created = call_create request ∷ call_create request ∷ []

abbrev pub waiting : MemoryStore
waiting = run_calls two_created (new_memory_store env)

pub waiting-IsValid : IsValid waiting
waiting-IsValid = reachable-IsValid env two_created env-IsFaithful

abbrev pub first_item : Execution
first_item = new_execution request 1 1

abbrev pub second_item : Execution
second_item = new_execution request 3 3

-- The first execution runs under a lease of the given length, with the token 5.
abbrev pub one_claimed : List Call
one_claimed = call_create request ∷ call_create request ∷ call_claim "a" keys (pos 1) (pos 50) ∷ []

abbrev pub claimed_store : MemoryStore
claimed_store = run_calls one_claimed (new_memory_store env)

pub claimed_store-IsValid : IsValid claimed_store
claimed_store-IsValid = reachable-IsValid env one_claimed env-IsFaithful

abbrev pub first_claimed : Execution
first_claimed = deliver "a" 5 5 (pos 50) first_item

abbrev pub second_claimed : Execution
second_claimed = deliver "b" 7 7 (pos 50) second_item

-- The lease of the only execution ran out at once; its token was 3.
abbrev pub one_expired : List Call
one_expired = call_create request ∷ call_claim "a" keys (pos 1) (pos 0) ∷ []

abbrev pub expired_store : MemoryStore
expired_store = run_calls one_expired (new_memory_store env)

pub expired_store-IsValid : IsValid expired_store
expired_store-IsValid = reachable-IsValid env one_expired env-IsFaithful

abbrev pub redelivered : Execution
redelivered = deliver "b" 5 5 (pos 50) (deliver "a" 3 3 (pos 0) first_item)
