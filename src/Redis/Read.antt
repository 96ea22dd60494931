-- ===== src/Redis/Read.antt =====
-- execution/redis/store.go and execution/redis/pipelines.go: the methods that read, GetExecution,
-- ListExecutions, ListRunExecutions, Events, GetPipelineRun and ListPipelineRuns.
use ody.Memory.Query.{page}
use ody.Base.{
  String, List, Option, Bool, ℕ, if◌then◌else◌, ◌∷◌, [], some, contains, map, true, ◌==◌, sort,
  false, not, ◌++◌, text_ltb, none, is_nonpos, ltb, string_eq, ◌&&◌, nat_eq, suc, to_nat,
}
use ody.Redis.{
  Codec, Server, execution_key, run_executions_key, events_key, pipeline_key, runs_key,
  run_status_key, Key,
}
use ody.Redis.Encoding.{StoredRun, decode_run}
use ody.Redis.Filter.{execution_index_for, matches_execution_filter, before}
use ody.Execution.{
  ◌>>=◌, Result, ok, err, wrapped, not_found, Uuid, ListFilter, RunFilter, Execution, Event,
  RunStatus, Cursor,
}

module _ {R : Type 0} (server : Server R) (codec : Codec) where
  unfoldable pub get_execution : Uuid → R → Result Execution
  get_execution id s = elim (server.get (execution_key codec id) s) [
    | err e ↦ err e
    | ok none ↦ err not_found
    | ok (some value) ↦ elim (codec.parse_execution value) [
      | err e ↦ err (wrapped "decode redis execution" e)
      | ok item ↦ ok item
    ]
  ]

  -- `uuid.Parse` of a member of an index, and GetExecution.
  abbrev pub get_member : String → R → Result Execution
  get_member value s = do id ← codec.parse_uuid value; get_execution id s

  -- The loop of ListExecutions, with the number of items found.
  unfoldable pub list_matching : ListFilter → ℕ → List String → R → Result (List Execution)
  unfolding get_execution matches_execution_filter
  list_matching filter found [] s = ok []
  list_matching filter found (value ∷ values) s = elim (get_member value s) [
    | err e ↦ err e
    | ok item ↦ elim (matches_execution_filter codec item filter) [
      | false ↦ list_matching filter found values s
      | true ↦ elim (not (is_nonpos filter.limit) && suc found == to_nat filter.limit) [
        | true ↦ ok (item ∷ [])
        | false ↦ (do items ← list_matching filter (suc found) values s; ok (item ∷ items))
      ]
    ]
  ]

  unfoldable pub list_executions : ListFilter → R → Result (List Execution)
  unfolding execution_index_for list_matching
  list_executions filter s = do
    ids ← server.zrevrange (execution_index_for codec filter) s
    list_matching filter 0 ids s

  -- The loop of ListRunExecutions.
  unfoldable pub get_members : List String → R → Result (List Execution)
  unfolding get_execution
  get_members [] s = ok []
  get_members (value ∷ values) s = do
    item ← get_member value s
    items ← get_members values s
    ok (item ∷ items)

  unfoldable pub list_run_executions : Uuid → R → Result (List Execution)
  unfolding get_members
  list_run_executions run s = do
    ids ← server.zrange (run_executions_key codec run) s
    get_members ids s

  unfoldable pub parse_events : List String → Result (List Event)
  parse_events [] = ok []
  parse_events (value ∷ values) = elim (codec.parse_event value) [
    | err e ↦ err (wrapped "decode redis event" e)
    | ok event ↦ (do events ← parse_events values; ok (event ∷ events))
  ]

  unfoldable pub events_of : Uuid → R → Result (List Event)
  unfolding get_execution parse_events
  events_of id s = do
    item ← get_execution id s
    values ← server.lrange (events_key codec id) s
    parse_events values

  unfoldable pub get_pipeline_run : Uuid → R → Result StoredRun
  unfolding decode_run
  get_pipeline_run id s = do
    values ← server.hgetall (pipeline_key codec id) s
    elim values [ [] ↦ err not_found | field ∷ fields ↦ decode_run codec (field ∷ fields) ]

  -- `ids[value] = struct{}{}`
  abbrev pub note_id : String → List String → List String
  note_id value ids = if contains ids value then ids else ids ++ value ∷ []

  unfoldable pub note_ids : List String → List String → List String
  note_ids [] ids = ids
  note_ids (value ∷ values) ids = note_ids values (note_id value ids)

  unfoldable pub read_indexes : List Key → List String → R → Result (List String)
  unfolding note_ids
  read_indexes [] ids s = ok ids
  read_indexes (key ∷ keys) ids s = elim (server.zrevrange key s) [
    | err e ↦ err e
    | ok values ↦ read_indexes keys (note_ids values ids) s
  ]

  abbrev pub run_indexes : List RunStatus → List Key
  run_indexes [] = runs_key codec ∷ []
  run_indexes (status ∷ statuses) =
      run_status_key codec status ∷ map (run_status_key codec) statuses

  unfoldable pub pipeline_ids : List RunStatus → R → Result (List String)
  unfolding read_indexes
  pipeline_ids statuses s = read_indexes (run_indexes statuses) [] s

  abbrev pub on_run_page : Option Cursor → StoredRun → Bool
  on_run_page none run = true
  on_run_page (some cursor) run = before codec run.created_at run.id cursor

  -- The loop of ListPipelineRuns.
  unfoldable pub get_runs : RunFilter → List String → R → Result (List StoredRun)
  unfolding get_pipeline_run before
  get_runs filter [] s = ok []
  get_runs filter (value ∷ values) s = do
    id ← codec.parse_uuid value
    run ← get_pipeline_run id s
    runs ← get_runs filter values s
    ok (if on_run_page filter.before run then run ∷ runs else runs)

  unfoldable pub newer_stored : StoredRun → StoredRun → Bool
  newer_stored a b =
      if a.created_at == b.created_at
      then text_ltb (codec.uuid_text b.id) (codec.uuid_text a.id)
      else ltb b.created_at a.created_at

  unfoldable pub list_pipeline_runs : RunFilter → R → Result (List StoredRun)
  unfolding pipeline_ids get_runs newer_stored
  list_pipeline_runs filter s = do
    ids ← pipeline_ids filter.statuses s
    runs ← get_runs filter ids s
    ok (page filter.limit (sort newer_stored runs))
