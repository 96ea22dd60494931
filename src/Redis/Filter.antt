-- ===== src/Redis/Filter.antt =====
-- execution/redis/store.go: which executions a filter matches, and the index that ListExecutions reads.
use ody.Memory.{before_cursor, Env}
use ody.Base.{
  Bool, some, if◌then◌else◌, not, ltb, ◌≡◌, ◌==◌, ◌||◌, arith, ◌&&◌, none, text_ltb, false,
  string_eq, true, nat_eq,
}
use ody.Memory.Query.{selects}
use ody.Execution.{ListFilter, Time, Execution, Uuid, Cursor, status_eq}
use ody.Redis.{Codec, Key, run_executions_key, task_index_key, status_key, executions_key}

-- `filter.Status` is `none` where Go has the empty status.
unfoldable pub execution_index_for : Codec → ListFilter → Key
execution_index_for codec filter = elim filter.pipeline_run_id [
  | some run ↦ run_executions_key codec run
  | none ↦
      if not (filter.task_name == "")
      then task_index_key codec filter.task_name
      else elim filter.status [
        | some status ↦ status_key codec status
        | none ↦ executions_key codec
      ]
]

unfoldable pub before : Codec → Time → Uuid → Cursor → Bool
before codec created_at id cursor =
    ltb created_at cursor.created_at
    || (created_at == cursor.created_at
        && text_ltb (codec.uuid_text id) (codec.uuid_text cursor.id))

unfoldable pub matches_execution_filter : Codec → Execution → ListFilter → Bool
unfolding before
matches_execution_filter codec item filter =
    if not (filter.task_name == "") && not (item.task_name == filter.task_name)
    then false
    else if (elim filter.status [ none ↦ false | some status ↦ not (item.status == status) ])
    then false
    else if (elim filter.before [
      | none ↦ false
      | some cursor ↦ not (before codec item.created_at item.id cursor)
    ])
    then false
    else elim filter.pipeline_run_id [
      | none ↦ true
      | some run ↦ elim item.pipeline_run_id [ none ↦ false | some r ↦ r == run ]
    ]

-- A filter matches an execution in the Redis store exactly where it selects it in MemoryStore, if both
-- print identifiers alike.
pub matches_execution_filter-selects :
    (codec : Codec) (env : Env) (item : Execution) (filter : ListFilter)
    → env.uuid_text ≡ codec.uuid_text
    → matches_execution_filter codec item filter ≡ selects env filter item
unfolding matches_execution_filter selects before before_cursor
matches_execution_filter-selects codec env item filter h = ground (arith, h)
