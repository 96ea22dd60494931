-- ===== src/Memory/Create.antt =====
-- execution/memory.go: CreateExecution and GetExecution.
pub mod Idempotent
use ody.Base.{
  String, Option, none, some, ◌==◌, nat_eq, string_eq, if◌then◌else◌, Map, lookup, insert, find_or,
  is_nonpos, to_nat,
}
use ody.Execution.{
  Uuid, Time, nil_uuid, pending, Execution, CreateExecution, created, Result, ok, err, not_found,
  message,
}
use ody.Memory.{
  MemoryStore, now, after_now, new_uuid, after_uuid, zero_execution, idempotency_index, node_index,
  put_execution, append_event,
}

-- `if key != "" { m[index] = id }`
abbrev pub remember : String → String → Uuid → Map String Uuid → Map String Uuid
remember key index id m = if key == "" then m else insert index id m

-- `if runID != nil && nodeKey != "" { s.nodes[…] = id }`
abbrev pub remember_node : MemoryStore → CreateExecution → Uuid → Map String Uuid → Map String Uuid
remember_node s request id m = elim request.pipeline_run_id [
  | none ↦ m
  | some run ↦ remember request.node_key (node_index s.env run request.node_key) id m
]

-- The execution that an earlier request with the same idempotency key created.
unfoldable pub known_key : MemoryStore → CreateExecution → Option Uuid
known_key s request =
    if request.idempotency_key == ""
    then none
    else lookup (idempotency_index request.task_name request.idempotency_key) s.idempotent

-- The execution of the same pipeline node.
unfoldable pub known_node : MemoryStore → CreateExecution → Option Uuid
known_node s request = elim request.pipeline_run_id [
  | none ↦ none
  | some run ↦
      if request.node_key == ""
      then none
      else lookup (node_index s.env run request.node_key) s.nodes
]

unfoldable pub new_execution : CreateExecution → Uuid → Time → Execution
new_execution request id at = record {
  id = id;
  task_name = request.task_name;
  task_version = request.task_version;
  input = request.input;
  output = "";
  status = pending;
  attempt = 0;
  max_attempts = if is_nonpos request.max_attempts then 1 else to_nat request.max_attempts;
  available_at = if request.available_at == 0 then at else request.available_at;
  lease_owner = "";
  lease_token = nil_uuid;
  lease_until = 0;
  last_error = "";
  idempotency_key = request.idempotency_key;
  pipeline_run_id = request.pipeline_run_id;
  node_key = request.node_key;
  created_at = at;
  started_at = none;
  finished_at = none;
}

-- The branch that stores a new execution.
unfoldable pub insert_execution : MemoryStore → CreateExecution → Execution × MemoryStore
unfolding new_execution put_execution append_event
insert_execution s request =
    let item = new_execution request (new_uuid s) (now s) in
    let stored = put_execution (after_uuid (after_now s)) item.id item in
    let indexed = record stored {
      idempotent =
          remember request.idempotency_key
            (idempotency_index request.task_name request.idempotency_key) item.id s.idempotent;
      nodes = remember_node s request item.id s.nodes;
    } in
    (item, append_event indexed item created "")

unfoldable pub create_execution : CreateExecution → MemoryStore → Result Execution × MemoryStore
unfolding known_key known_node insert_execution
create_execution request s =
    if request.task_name == ""
    then (err (message "task name is empty"), s)
    else elim (known_key s request) [
      | some id ↦ (ok (find_or zero_execution id s.executions), s)
      | none ↦ elim (known_node s request) [
        | some id ↦ (ok (find_or zero_execution id s.executions), s)
        | none ↦ (let (item, s') = insert_execution s request in (ok item, s'))
      ]
    ]

unfoldable pub get_execution : Uuid → MemoryStore → Result Execution
get_execution id s = elim (lookup id s.executions) [ none ↦ err not_found | some item ↦ ok item ]
