-- ===== src/Engine/Scheduling.antt =====
-- pipeline/engine.go: the two loops of advanceOnce, and the status that it sets after them.
use ody.Base.{
  Map, List, String, Option, ◌∷◌, Bool, some, lookup, false, insert, true, not, ◌||◌, if◌then◌else◌,
  none, string_eq, ◌==◌, length, [], ◌&&◌, values, nat_eq,
}
use Prim.Native.String
use ody.Engine.{Persistence}
use ody.Execution.Errors.{error_text}
use ody.Pipeline.{NodeDefinition, Definition, built, refused, panicked}
use ody.Execution.{
  Uuid, Error, Result, ok, err, message, joined, Execution, CreateExecution, PipelineRun,
  run_status_eq, run_pending, run_running, run_succeeded, run_failed, status_eq, succeeded, failed,
  cancelled, blocked,
}

-- What the first loop of advanceOnce finds: a node that ended badly, or the executions and the
-- outputs by node.
pub data Found : Type 0 where
  broken : Execution → Found
  sound : Map String Execution → Map String String → Found

unfoldable pub collect : List Execution → Map String Execution → Map String String → Found
collect [] by_node outputs = sound by_node outputs
collect (item ∷ rest) by_node outputs =
    let later =
      collect rest (insert item.node_key item by_node)
        (if item.status == succeeded then insert item.node_key item.output outputs else outputs) in
    if item.status == failed || item.status == cancelled then broken item else later

unfoldable pub is_ready : Map String Execution → List String → Bool
is_ready by_node [] = true
is_ready by_node (dependency ∷ rest) =
    (elim (lookup dependency by_node) [ none ↦ false | some e ↦ e.status == succeeded ])
    && is_ready by_node rest

-- `safeBuildInput` turns a panic of the mapper into an error.
unfoldable pub safe_build_input : NodeDefinition → String → Map String String → Result String
safe_build_input node initial outputs = elim (node.build_input initial outputs) [
  | built input ↦ ok input
  | refused text ↦ err (message text)
  | panicked text ↦ err (message (String.◌++◌ "pipeline mapper panic: " text))
]

-- `errors.Join(e, statusErr)`
abbrev join_status : Error → Result (Unit {0}) → Error
join_status e (ok u) = e
join_status e (err f) = joined e f

-- `exists && existing.Status != StatusBlocked`
abbrev pub is_placed : Option Execution → Bool
is_placed none = false
is_placed (some existing) = not (existing.status == blocked)

abbrev pub all_succeeded : List Execution → Bool
all_succeeded [] = true
all_succeeded (item ∷ rest) = item.status == succeeded && all_succeeded rest

module _ {S : Type 0} (p : Persistence S) (uuid_text : Uuid → String) (run_id : Uuid) where
  -- The request for the execution of a node that has none.
  unfoldable pub node_request : NodeDefinition → String → CreateExecution
  node_request node input = record {
    task_name = node.task_name;
    task_version = node.task_version;
    input = input;
    max_attempts = node.max_attempts;
    available_at = 0;
    idempotency_key = String.◌++◌ (uuid_text run_id) (String.◌++◌ ":" node.key);
    pipeline_run_id = some run_id;
    node_key = node.key;
  }

  -- A ready node is released if it is blocked, and created if it has no execution.
  unfoldable pub place : NodeDefinition → Option Execution → String → S → Result (Unit {0}) × S
  unfolding node_request
  place node (some existing) input s = p.release_task existing.id input existing.available_at s
  place node none input s =
      let (r, s') = p.create_task (node_request node input) s in
      (elim r [ ok e ↦ ok tt | err e ↦ err e ], s')

  unfoldable pub schedule_node :
      PipelineRun
      → Map String Execution
      → Map String String
      → NodeDefinition
      → S
      → Result (Unit {0}) × S
  unfolding safe_build_input place
  schedule_node run by_node outputs node s = elim (safe_build_input node run.input outputs) [
    | ok input ↦ place node (lookup node.key by_node) input s
    | err e ↦
        (let (r, s') =
            p.set_status run_id run.revision run_failed
              (String.◌++◌ "build node "
                (String.◌++◌ node.key (String.◌++◌ " input: " (error_text e))))
              s in
          (err (join_status e r), s'))
  ]

  -- The second loop: whether a node was scheduled, or the error that ends the loop.
  unfoldable pub schedule_nodes :
      PipelineRun
      → Map String Execution
      → Map String String
      → List NodeDefinition
      → Bool
      → S
      → Result Bool × S
  unfolding is_ready schedule_node
  schedule_nodes run by_node outputs [] changed s = (ok changed, s)
  schedule_nodes run by_node outputs (node ∷ rest) changed s =
      elim (is_placed (lookup node.key by_node) || not (is_ready by_node node.dependencies)) [
        | true ↦ schedule_nodes run by_node outputs rest changed s
        | false ↦
            (let (r, s') = schedule_node run by_node outputs node s in
              elim r [
                | err e ↦ (err e, s')
                | ok u ↦ schedule_nodes run by_node outputs rest true s'
              ])
      ]

  -- What follows the loops: the status of the run.
  unfoldable pub settle :
      PipelineRun → Definition → Map String Execution → Bool → S → Result (Unit {0}) × S
  settle run definition by_node changed s =
      if length definition.nodes == 0
        || (length by_node == length definition.nodes && all_succeeded (values by_node))
      then p.set_status run_id run.revision run_succeeded "" s
      else if changed || run.status == run_pending
      then p.set_status run_id run.revision run_running "" s
      else (ok tt, s)

  unfoldable pub advance_found : PipelineRun → Definition → Found → S → Result (Unit {0}) × S
  unfolding schedule_nodes settle
  advance_found run definition (broken item) s =
      p.set_status run_id run.revision run_failed
        (String.◌++◌ "node " (String.◌++◌ item.node_key (String.◌++◌ ": " item.last_error))) s
  advance_found run definition (sound by_node outputs) s =
      let (r, s') = schedule_nodes run by_node outputs definition.nodes false s in
      elim r [ err e ↦ (err e, s') | ok changed ↦ settle run definition by_node changed s' ]
