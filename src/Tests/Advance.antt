-- ===== src/Tests/Advance.antt =====
-- The engine (pipeline/engine.go) at a run of two nodes, in a `MemoryStore`.
use ody.Engine.Progress.{IsDone, schedule_nodes-IsDone}
use ody.Engine.Scheduling.{schedule_nodes}
use ody.Tests.{env, first_item}
use ody.Tests.Graph.{chain, compiles}
use ody.Memory.{MemoryStore, new_memory_store}
use ody.Memory.Runs.{create_pipeline_run, get_pipeline_run, new_run, known_run}
use ody.Memory.Query.{list_run_executions}
use ody.Engine.Local.{memory_persistence}
use ody.Engine.Log.{logged}
use ody.Engine.Advance.{advance_once}
use ody.Engine.Ready.{IsJustified}
use ody.Engine.Ready.Schedule.{advance_once-Justified}
use ody.Pipeline.{Registry, new_node, NodeDefinition}
use ody.Execution.{CreatePipelineRun, PipelineRun, ok, Execution, succeeded}
use ody.Base.{
  sort, insert, lookup, pos, ◌≡◌, All, ◌∷◌, some, [], refl, pair_eq, string_eq, int_eq, String, Map,
  false, All-mem,
}

abbrev invocation : CreatePipelineRun
invocation = record {
  pipeline_name = "news";
  pipeline_version = pos 1;
  input = "{}";
  idempotency_key = "";
}

abbrev started : MemoryStore
started = (create_pipeline_run invocation (new_memory_store env)).1

abbrev first_run : PipelineRun
first_run = new_run invocation 1 1

abbrev registry : Registry
registry = (("news", pos 1), chain) ∷ []

run_stored : get_pipeline_run 1 started ≡ ok first_run
unfolding get_pipeline_run create_pipeline_run new_run known_run new_memory_store insert lookup
run_stored = refl

defined : lookup (first_run.pipeline_name, first_run.pipeline_version) registry ≡ some chain
unfolding new_run lookup
defined = refl

nothing_listed : ok (list_run_executions 1 started) ≡ ok []
unfolding list_run_executions create_pipeline_run known_run new_run new_memory_store insert sort
nothing_listed = refl

advance_once-Justified_example :
    All
      (IsJustified 1 first_run chain [])
      (advance_once (logged memory_persistence) (λ id. "") 1 registry ([], started)).1.0
advance_once-Justified_example =
    advance_once-Justified memory_persistence (λ id. "") 1 first_run chain [] registry started
      run_stored defined nothing_listed

-- Both nodes have succeeded.
abbrev succeeded_node : String → Execution
succeeded_node key = record first_item { node_key = key; status = succeeded }

abbrev by_node : Map String Execution
by_node = ("fetch", succeeded_node "fetch") ∷ ("send", succeeded_node "send") ∷ []

nodes-IsDone : All (λ (node : NodeDefinition). IsDone by_node node.key) chain.nodes
unfolding lookup new_node
nodes-IsDone = (
  record { item = succeeded_node "fetch"; found = refl; done = refl },
  (record { item = succeeded_node "send"; found = refl; done = refl }, tt),
)

nothing_scheduled :
    (schedule_nodes memory_persistence
      (λ id. "")
      1
      first_run
      by_node
      []
      chain.nodes
      false
      started).0
    ≡ ok false
unfolding schedule_nodes lookup new_node
nothing_scheduled = refl

schedule_nodes-IsDone_example : All (λ (node : NodeDefinition). IsDone by_node node.key) chain.nodes
schedule_nodes-IsDone_example =
    schedule_nodes-IsDone memory_persistence (λ id. "") 1 first_run by_node [] chain chain started
      compiles
      (λ node m placed. All-mem (λ (n : NodeDefinition). IsDone by_node n.key) nodes-IsDone m)
      nothing_scheduled
