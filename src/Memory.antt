-- ===== src/Memory.antt =====
-- execution/memory.go: the state of `MemoryStore` and the helpers that its methods share.
-- The mutex serialises the methods, so each is one function of the state. `env` is the world
-- outside: the n-th reading of `now`, the n-th result of `uuid.New`, and `UUID.String`.
-- The copies that `cloneExecution` and `cloneRun` make have no counterpart: values are immutable.
pub mod Create
pub mod Claim
pub mod Lease
pub mod Control
pub mod Runs
pub mod Query
pub mod Purge
pub mod Valid
pub mod Delivery
pub mod Transition
use ody.Base.{
  ℕ, String, suc, Bool, false, ◌≡◌, ◌≢◌, ◌&&◌, ◌||◌, Option, none, some, List, [], ◌∷◌, ◌++◌, not,
  ◌==◌, nat_eq, ltb, text_ltb, if◌then◌else◌, Map, lookup, insert, find_or, pos,
}
use ody.Execution.{
  Uuid, nil_uuid, Time, pending, running, status_eq, run_pending, Execution, PipelineRun, Event,
  EventType, Cursor, Result, ok, err, not_found, lease_lost,
}
use Prim.Native.String

pub record Env : Type 0 where
  pub clock : ℕ → Time
  pub mint : ℕ → Uuid
  pub uuid_text : Uuid → String

-- What the code relies on: a fresh UUID is not nil and never comes twice.
pub record IsFaithful (env : Env) : Type 0 where
  pub mint_ne_nil : (n : ℕ) → env.mint n ≢ nil_uuid
  pub mint_injective : (m n : ℕ) → env.mint m ≡ env.mint n → m ≡ n

pub record MemoryStore : Type 0 where
  pub executions : Map Uuid Execution
  pub runs : Map Uuid PipelineRun
  pub events : Map Uuid (List Event)
  pub idempotent : Map String Uuid
  pub nodes : Map String Uuid
  pub run_idempotent : Map String Uuid
  pub env : Env
  -- How often `now` was read, and `uuid.New` was called.
  pub reads : ℕ
  pub mints : ℕ

unfoldable pub new_memory_store : Env → MemoryStore
new_memory_store env = record {
  executions = [];
  runs = [];
  events = [];
  idempotent = [];
  nodes = [];
  run_idempotent = [];
  env = env;
  reads = 0;
  mints = 0;
}

-- `s.now()`: the reading, and the store after it.
abbrev pub now : MemoryStore → Time
now s = s.env.clock s.reads

abbrev pub after_now : MemoryStore → MemoryStore
after_now s = record s { reads = suc s.reads }

-- `uuid.New()`: the identifier, and the store after it.
abbrev pub new_uuid : MemoryStore → Uuid
new_uuid s = s.env.mint s.mints

abbrev pub after_uuid : MemoryStore → MemoryStore
after_uuid s = record s { mints = suc s.mints }

-- The zero values that Go's maps return for a missing key.
unfoldable pub zero_execution : Execution
zero_execution = record {
  id = nil_uuid;
  task_name = "";
  task_version = pos 0;
  input = "";
  output = "";
  status = pending;
  attempt = 0;
  max_attempts = 0;
  available_at = 0;
  lease_owner = "";
  lease_token = nil_uuid;
  lease_until = 0;
  last_error = "";
  idempotency_key = "";
  pipeline_run_id = none;
  node_key = "";
  created_at = 0;
  started_at = none;
  finished_at = none;
}

unfoldable pub zero_run : PipelineRun
zero_run = record {
  id = nil_uuid;
  pipeline_name = "";
  pipeline_version = pos 0;
  input = "";
  status = run_pending;
  error = "";
  idempotency_key = "";
  revision = 0;
  created_at = 0;
  updated_at = 0;
  finished_at = none;
}

-- `name + "\x00" + key`, the key of both idempotency indexes.
unfoldable pub idempotency_index : String → String → String
idempotency_index name key = String.◌++◌ name (String.◌++◌ "\0" key)

-- `runID.String() + "\x00" + nodeKey`
unfoldable pub node_index : Env → Uuid → String → String
node_index env run key = String.◌++◌ (env.uuid_text run) (String.◌++◌ "\0" key)

-- `s.executions[id] = item`
unfoldable pub put_execution : MemoryStore → Uuid → Execution → MemoryStore
put_execution s id item = record s { executions = insert id item s.executions }

unfoldable pub append_event : MemoryStore → Execution → EventType → String → MemoryStore
append_event s item kind error_text = record (after_now (after_uuid s)) {
  events = insert item.id (find_or [] item.id s.events ++ event ∷ []) s.events;
}
  where
    event : Event
    event = record {
      id = new_uuid s;
      execution_id = item.id;
      kind = kind;
      attempt = item.attempt;
      error = error_text;
      created_at = now s;
    }

-- `s.executions[id] = item; s.appendEvent(item, kind, text)`
unfoldable pub commit : MemoryStore → Uuid → Execution → EventType → String → MemoryStore
unfolding put_execution append_event
commit s id item kind error_text = append_event (put_execution s id item) item kind error_text

-- `item.LeaseToken, item.LeaseOwner, item.LeaseUntil = uuid.Nil, "", time.Time{}`
abbrev pub clear_lease : Execution → Execution
clear_lease item = record item { lease_token = nil_uuid; lease_owner = ""; lease_until = 0 }

abbrev check_owned : Uuid → Option Execution → Result Execution
check_owned token none = err not_found
check_owned token (some item) =
    if not (item.status == running) || token == nil_uuid || not (item.lease_token == token)
    then err lease_lost
    else ok item

unfoldable pub owned : MemoryStore → Uuid → Uuid → Result Execution
owned s id token = check_owned token (lookup id s.executions)

unfoldable pub newer : Env → Time → Uuid → Time → Uuid → Bool
newer env left_time left_id right_time right_id =
    if left_time == right_time
    then text_ltb (env.uuid_text right_id) (env.uuid_text left_id)
    else ltb right_time left_time

unfoldable pub before_cursor : Env → Time → Uuid → Cursor → Bool
before_cursor env created_at id cursor =
    ltb created_at cursor.created_at
    || (created_at == cursor.created_at && text_ltb (env.uuid_text id) (env.uuid_text cursor.id))
