-- ===== src/Redis/Purge.antt =====
-- execution/redis/store.go: Purge. The order of candidates that ended at the same time, which sort.Slice
-- leaves open, is that of the library's sort here.
use ody.Base.{
  Bool, List, Option, ltb, suc, ◌∷◌, some, if◌then◌else◌, ◌+◌, ◌++◌, ℤ, none, [], is_some, length,
  pos, take, is_nonpos, to_nat, negsuc, sort, ◌==◌, string_eq,
}
use ody.Execution.{
  ◌>>=◌, Result, Time, PurgeResult, Status, RunFilter, Execution, ListFilter, run_succeeded,
  run_failed, ok, succeeded, run_cancelled, failed, err, cancelled,
}
use ody.Redis.{
  del, zrem, hincr_by, Codec, Command, Server, pipeline_key, runs_key, pipeline_counts_key,
  pipeline_idempotency_key,
}
use ody.Redis.Read.{list_pipeline_runs, list_run_executions, list_executions}
use ody.Redis.Create.{purge_execution}
use ody.Redis.RunUpdate.{stored_count_field, stored_status_key}
use ody.Redis.Encoding.{StoredRun}

-- An execution, or a run with its executions, and when it ended.
pub data Ending : Type 0 where
  of_item : Time → Execution → Ending
  of_run : Time → StoredRun → List Execution → Ending

abbrev pub finished : Ending → Time
finished (of_item at item) = at
finished (of_run at run nodes) = at

-- The time of an end before the cutoff.
unfoldable pub ended_before : Time → Option Time → Option Time
ended_before cutoff none = none
ended_before cutoff (some at) = if ltb at cutoff then some at else none

-- An execution outside a run that ended before the cutoff.
unfoldable pub ended_item : Time → Execution → Option Time
unfolding ended_before
ended_item cutoff item =
    if is_some item.pipeline_run_id then none else ended_before cutoff item.finished_at

unfoldable pub item_endings : Time → List Execution → List Ending
unfolding ended_item
item_endings cutoff [] = []
item_endings cutoff (item ∷ items) =
    let rest = item_endings cutoff items in
    elim (ended_item cutoff item) [ none ↦ rest | some at ↦ of_item at item ∷ rest ]

unfoldable pub ending_before : Ending → Ending → Bool
ending_before a b = ltb (finished a) (finished b)

unfoldable pub count_ending : Ending → PurgeResult → PurgeResult
count_ending (of_item at item) result = record result { executions = suc result.executions }
count_ending (of_run at run nodes) result = record {
  executions = result.executions + length nodes;
  pipeline_runs = suc result.pipeline_runs;
}

unfoldable pub count_endings : List Ending → PurgeResult → PurgeResult
unfolding count_ending
count_endings [] result = result
count_endings (ending ∷ endings) result = count_endings endings (count_ending ending result)

abbrev pub finished_with : Status → ListFilter
finished_with status = record {
  task_name = "";
  status = some status;
  pipeline_run_id = none;
  limit = pos 0;
  before = none;
}

abbrev pub ended_runs : RunFilter
ended_runs = record {
  statuses = run_succeeded ∷ run_failed ∷ run_cancelled ∷ [];
  limit = pos 0;
  before = none;
}

-- The earliest ends, `limit` of them.
unfoldable pub purge_chosen : ℤ → List Ending → List Ending
unfolding ending_before
purge_chosen limit found =
    take (if is_nonpos limit then 1000 else to_nat limit) (sort ending_before found)

module _ (codec : Codec) where
  unfoldable pub purge_nodes : List Execution → List Command
  unfolding purge_execution
  purge_nodes [] = []
  purge_nodes (item ∷ items) = purge_execution codec item ++ purge_nodes items

  unfoldable pub purge_ending : Ending → List Command
  unfolding purge_nodes purge_execution
  purge_ending (of_item at item) = purge_execution codec item
  purge_ending (of_run at run nodes) =
      let member = codec.uuid_text run.id in
      purge_nodes nodes
      ++ (del (pipeline_key codec run.id ∷ [])
          ∷ zrem (runs_key codec) member
          ∷ zrem (stored_status_key run.status) member
          ∷ hincr_by (pipeline_counts_key codec) (stored_count_field run.pipeline_name run.status)
              (negsuc 0)
          ∷ (if run.idempotency_key == ""
              then []
              else del (pipeline_idempotency_key codec run.pipeline_name run.idempotency_key ∷ [])
                ∷ []))

  unfoldable pub purge_endings : List Ending → List Command
  unfolding purge_ending
  purge_endings [] = []
  purge_endings (ending ∷ endings) = purge_ending ending ++ purge_endings endings

  module _ {R : Type 0} (server : Server R) where
    -- The loop over the runs.
    unfoldable pub run_endings : Time → List StoredRun → R → Result (List Ending)
    unfolding list_run_executions ended_before
    run_endings cutoff [] s = ok []
    run_endings cutoff (run ∷ runs) s = elim (ended_before cutoff run.finished_at) [
      | none ↦ run_endings cutoff runs s
      | some at ↦ (do
        nodes ← list_run_executions server codec run.id s
        rest ← run_endings cutoff runs s
        ok (of_run at run nodes ∷ rest))
    ]

    -- The loop over the statuses.
    unfoldable pub status_endings : Time → List Status → R → Result (List Ending)
    unfolding list_executions item_endings
    status_endings cutoff [] s = ok []
    status_endings cutoff (status ∷ statuses) s = do
      items ← list_executions server codec (finished_with status) s
      rest ← status_endings cutoff statuses s
      ok (item_endings cutoff items ++ rest)

    unfoldable pub endings : Time → R → Result (List Ending)
    unfolding list_pipeline_runs run_endings status_endings
    endings cutoff s = do
      runs ← list_pipeline_runs server codec ended_runs s
      ended ← run_endings cutoff runs s
      items ← status_endings cutoff (succeeded ∷ failed ∷ cancelled ∷ []) s
      ok (ended ++ items)

    unfoldable pub purge : Time → ℤ → R → Result PurgeResult × R
    unfolding endings purge_chosen purge_endings count_endings
    purge cutoff limit s = elim (endings cutoff s) [
      | err e ↦ (err e, s)
      | ok found ↦
          (let chosen = purge_chosen limit found in
            let (r, s') = server.pipelined (purge_endings chosen) s in
            (
              elim r [
                | err e ↦ err e
                | ok _ ↦ ok (count_endings chosen (record { executions = 0; pipeline_runs = 0 }))
              ],
              s',
            ))
    ]
