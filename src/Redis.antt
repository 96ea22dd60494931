-- ===== src/Redis.antt =====
-- execution/redis/keys.go: the keys of the Redis store, and execution/redis/store.go: the commands
-- that it sends, and the transactions by which it sends them. The texts of identifiers, names, records
-- and instants are made by packages outside the repository, and are given. So is the server.
-- A key is its kind and its argument; `key_text` is the string that the code builds.
pub mod Keys
pub mod Encoding
pub mod RoundTrip
pub mod Filter
pub mod Transition
pub mod Operations
pub mod Refines
pub mod Candidates
pub mod Indexes
pub mod Indexed
pub mod Steps
pub mod Shape
pub mod Shaped
pub mod Kept
pub mod Counted
pub mod Create
pub mod Created
pub mod Runs
pub mod Watch
pub mod Tries
pub mod Counts
pub mod Read
pub mod Listed
pub mod Claim
pub mod Loaded
pub mod Claimed
pub mod Reap
pub mod Assigned
pub mod Reaped
pub mod Creation
pub mod Found
pub mod References
pub mod Unique
pub mod RunUpdate
pub mod RunUpdated
pub mod Subgraph
pub mod Purge
pub mod Atomic
use Prim.Native.String
use ody.Base.{String, ℤ, ℕ, List, Option}
use ody.Execution.{
  Uuid, Time, Status, status_text, RunStatus, run_status_text, Execution, Event, Result, Error,
}

pub data Kind : Type 0 where
  of_execution of_events of_executions of_leases of_execution_counts of_pipeline_counts of_queue
        of_task :
      Kind
  of_status of_idempotency of_node of_run_executions of_pipeline of_runs : Kind
  of_pipeline_idempotency of_run_status : Kind

unfoldable pub kind_text : Kind → String
kind_text of_execution = "execution:"
kind_text of_events = "events:"
kind_text of_executions = "executions"
kind_text of_leases = "leases"
kind_text of_execution_counts = "counts:executions"
kind_text of_pipeline_counts = "counts:pipelines"
kind_text of_queue = "queue:"
kind_text of_task = "task:"
kind_text of_status = "status:"
kind_text of_idempotency = "idempotency:"
kind_text of_node = "node:"
kind_text of_run_executions = "run-executions:"
kind_text of_pipeline = "pipeline:"
kind_text of_runs = "pipelines"
kind_text of_pipeline_idempotency = "pipeline-idempotency:"
kind_text of_run_status = "pipeline-status:"

pub record Key : Type 0 where
  pub kind : Kind
  pub argument : String

-- The prefix of the store, and the key after it.
unfoldable pub key_text : String → Key → String
unfolding kind_text
key_text prefix key = String.◌++◌ prefix (String.◌++◌ (kind_text key.kind) key.argument)

-- `UUID.String` and `uuid.Parse`, `base64.RawURLEncoding`, `json.Marshal` and `json.Unmarshal` of the
-- records, `Time.UTC().Format(time.RFC3339Nano)` and `time.Parse`, the client's text of an int, and
-- `fmt.Sscan` of an int and of a uint64, and `strconv.ParseInt` of a count.
pub record Codec : Type 0 where
  pub uuid_text : Uuid → String
  pub parse_uuid : String → Result Uuid
  pub base64 : String → String
  pub execution_json : Execution → Result String
  pub parse_execution : String → Result Execution
  pub event_json : Event → Result String
  pub parse_event : String → Result Event
  pub time_text : Time → String
  pub parse_time : String → Result Time
  pub int_text : ℤ → String
  pub parse_int : String → Result ℤ
  pub parse_uint : String → Result ℕ
  pub parse_int64 : String → Result ℤ

module _ (codec : Codec) where
  abbrev pub encode_key : String → String
  encode_key value = codec.base64 value

  abbrev pub execution_key : Uuid → Key
  execution_key id = record { kind = of_execution; argument = codec.uuid_text id }

  abbrev pub events_key : Uuid → Key
  events_key id = record { kind = of_events; argument = codec.uuid_text id }

  abbrev pub executions_key : Key
  executions_key = record { kind = of_executions; argument = "" }

  abbrev pub leases_key : Key
  leases_key = record { kind = of_leases; argument = "" }

  abbrev pub execution_counts_key : Key
  execution_counts_key = record { kind = of_execution_counts; argument = "" }

  abbrev pub pipeline_counts_key : Key
  pipeline_counts_key = record { kind = of_pipeline_counts; argument = "" }

  abbrev pub queue_key : String → Key
  queue_key name = record { kind = of_queue; argument = encode_key name }

  abbrev pub task_index_key : String → Key
  task_index_key name = record { kind = of_task; argument = encode_key name }

  abbrev pub status_key : Status → Key
  status_key status = record { kind = of_status; argument = status_text status }

  abbrev pub idempotency_key : String → String → Key
  idempotency_key name key = record {
    kind = of_idempotency;
    argument = encode_key (String.◌++◌ name (String.◌++◌ "\0" key));
  }

  abbrev pub node_key : Uuid → String → Key
  node_key run node = record {
    kind = of_node;
    argument = String.◌++◌ (codec.uuid_text run) (String.◌++◌ ":" (encode_key node));
  }

  abbrev pub run_executions_key : Uuid → Key
  run_executions_key id = record { kind = of_run_executions; argument = codec.uuid_text id }

  abbrev pub pipeline_key : Uuid → Key
  pipeline_key id = record { kind = of_pipeline; argument = codec.uuid_text id }

  abbrev pub runs_key : Key
  runs_key = record { kind = of_runs; argument = "" }

  abbrev pub pipeline_idempotency_key : String → String → Key
  pipeline_idempotency_key name key = record {
    kind = of_pipeline_idempotency;
    argument = encode_key (String.◌++◌ name (String.◌++◌ "\0" key));
  }

  abbrev pub run_status_key : RunStatus → Key
  run_status_key status = record { kind = of_run_status; argument = run_status_text status }

-- A command of a transaction, with a score or an increment as an integer.
pub data Command : Type 0 where
  set : Key → String → Command
  del : List Key → Command
  hincr_by : Key → String → ℤ → Command
  hset : Key → List (String × String) → Command
  zadd : Key → ℤ → String → Command
  zrem : Key → String → Command
  rpush : Key → String → Command

-- What the function given to Watch comes to: an error, errUnavailable, errExisting with the identifier
-- that was found, or a transaction with what it is for, such as the record that it writes.
pub data Plan (A : Type 0) : Type 0 where
  abort : Error → Plan A
  skip : Plan A
  exists : Uuid → Plan A
  send : A → List Command → Plan A

-- How a call of Watch ends without another error: errUnavailable, errExisting, or done.
pub data Ended (A : Type 0) : Type 0 where
  unavailable : Ended A
  existing : Uuid → Ended A
  done : A → Ended A

-- What EXEC answers: done, refused because a watched key has changed, or an error.
pub data Answer : Type 0 where
  committed tx_failed : Answer
  broken : Error → Answer

-- The server, as the client sees it. `get` is `none` for redis.Nil. `exec` sends a transaction under
-- WATCH of the keys; the state after it also has what other clients did. `zrange` lists a sorted set
-- from its first member, `zrange_by_score` the members up to a score, and no more than `count` of them
-- if there is a count. `command` is a single command, and `pipelined` a
-- transaction without WATCH.
pub record Server (R : Type 0) : Type 0 where
  pub get : Key → R → Result (Option String)
  pub hgetall : Key → R → Result (List (String × String))
  pub zrange : Key → R → Result (List String)
  pub zrevrange : Key → R → Result (List String)
  pub zrange_by_score : Key → ℤ → Option ℕ → R → Result (List String)
  pub lrange : Key → R → Result (List String)
  pub command : Command → R → Result (Unit {0}) × R
  pub time : R → Result Time
  pub exec : List Key → List Command → R → Answer × R
  pub pipelined : List Command → R → Result (Unit {0}) × R
