-- ===== src/Redis/Create.antt =====
-- execution/redis/store.go: the record and the transaction of CreateExecution, and purgeExecution.
use ody.Base.{
  List, String, if◌then◌else◌, ◌++◌, none, ◌∷◌, ◌==◌, [], some, string_eq, is_nonpos, pos, to_nat,
  negsuc, nat_eq,
}
use ody.Execution.{CreateExecution, Execution, Uuid, Time, pending, nil_uuid}
use ody.Redis.{
  Codec, Key, Command, set, del, zadd, zrem, hincr_by, rpush, idempotency_key, node_key,
  task_index_key, executions_key, run_executions_key, execution_key, execution_counts_key,
  events_key, status_key, queue_key, leases_key,
}
use ody.Redis.Encoding.{score}
use ody.Redis.Transition.{count_field}

unfoldable pub new_record : CreateExecution → Uuid → Time → Execution
new_record request id at = record {
  id = id;
  task_name = request.task_name;
  task_version = request.task_version;
  input = request.input;
  output = "";
  status = pending;
  attempt = 0;
  max_attempts = if is_nonpos request.max_attempts then 1 else to_nat request.max_attempts;
  available_at = if request.available_at == 0 then at else request.available_at;
  lease_owner = "";
  lease_token = nil_uuid;
  lease_until = 0;
  last_error = "";
  idempotency_key = request.idempotency_key;
  pipeline_run_id = request.pipeline_run_id;
  node_key = request.node_key;
  created_at = at;
  started_at = none;
  finished_at = none;
}

abbrev pub set_all : List Key → String → List Command
set_all [] value = []
set_all (key ∷ keys) value = set key value ∷ set_all keys value

module _ (codec : Codec) (item : Execution) where
  abbrev pub idempotency_reference : List Key
  idempotency_reference =
      if item.idempotency_key == ""
      then []
      else idempotency_key codec item.task_name item.idempotency_key ∷ []

  abbrev pub node_reference : List Key
  node_reference = elim item.pipeline_run_id [
    | none ↦ []
    | some run ↦ if item.node_key == "" then [] else node_key codec run item.node_key ∷ []
  ]

  -- `refs`, in the order in which they are looked up.
  abbrev pub references : List Key
  references = idempotency_reference ++ node_reference

  abbrev pub run_entry : List Command
  run_entry = elim item.pipeline_run_id [
    | none ↦ []
    | some run ↦
        zadd (run_executions_key codec run) (score item.created_at) (codec.uuid_text item.id) ∷ []
  ]

  unfoldable pub create_commands : String → String → List Command
  unfolding score
  create_commands encoded event =
      set (execution_key codec item.id) encoded
      ∷ hincr_by (execution_counts_key codec) (count_field item.task_name item.status) (pos 1)
      ∷ zadd (executions_key codec) (score item.created_at) (codec.uuid_text item.id)
      ∷ zadd (task_index_key codec item.task_name) (score item.created_at) (codec.uuid_text item.id)
      ∷ zadd (status_key codec item.status) (score item.created_at) (codec.uuid_text item.id)
      ∷ zadd (queue_key codec item.task_name) (score item.available_at) (codec.uuid_text item.id)
      ∷ rpush (events_key codec item.id) event
      ∷ (set_all references (codec.uuid_text item.id) ++ run_entry)

  abbrev pub purge_reference : List Command
  purge_reference =
      if item.idempotency_key == ""
      then []
      else del (idempotency_key codec item.task_name item.idempotency_key ∷ []) ∷ []

  abbrev pub purge_run : List Command
  purge_run = elim item.pipeline_run_id [
    | none ↦ []
    | some run ↦
        del (node_key codec run item.node_key ∷ [])
        ∷ zrem (run_executions_key codec run) (codec.uuid_text item.id)
        ∷ []
  ]

  unfoldable pub purge_execution : List Command
  purge_execution =
      del (execution_key codec item.id ∷ events_key codec item.id ∷ [])
      ∷ zrem (executions_key codec) (codec.uuid_text item.id)
      ∷ zrem (task_index_key codec item.task_name) (codec.uuid_text item.id)
      ∷ zrem (status_key codec item.status) (codec.uuid_text item.id)
      ∷ zrem (queue_key codec item.task_name) (codec.uuid_text item.id)
      ∷ zrem (leases_key codec) (codec.uuid_text item.id)
      ∷ hincr_by (execution_counts_key codec) (count_field item.task_name item.status) (negsuc 0)
      ∷ (purge_reference ++ purge_run)
