-- ===== src/Tests/Graph.antt =====
-- The theorems on pipelines (pipeline/definition.go, pipeline/engine.go) at a chain of two nodes.
use Prim.Native.String.{[]}
use ody.Base.{[], ◌∷◌, ◌≡◌, ◌≢◌, Member, pos, none, All, ◌↔◌, refl}
use ody.Pipeline.{
  built, Definition, NodeDefinition, TaskSpec, new_node, compile, validate_nodes, all_seen,
  trim_space, trim_left, trim_right, is_space, descendant_keys,
}
use ody.Pipeline.Order.{compile_topological, keys_of}
use ody.Pipeline.Descendants.{DependsOn, descendant_keys_exact}
use ody.Execution.{ok}

abbrev task : TaskSpec
task = record { name = "mail"; version = pos 1; max_attempts = pos 3; invalid = none }

abbrev fetch : NodeDefinition
fetch = new_node "fetch" task [] none (λ initial outputs. built initial)

abbrev send : NodeDefinition
send = new_node "send" task ("fetch" ∷ []) none (λ initial outputs. built initial)

abbrev pub chain : Definition
chain = record { name = "news"; version = pos 1; nodes = fetch ∷ send ∷ [] }

pub compiles : compile chain ≡ ok chain
unfolding compile validate_nodes all_seen trim_space trim_left trim_right is_space new_node
compiles = refl

compile_topological_example :
    (send.key ≢ "")
    × (¬ Member send.key (keys_of (fetch ∷ [])))
    × All (λ d. Member d (keys_of (fetch ∷ []))) send.dependencies
compile_topological_example = compile_topological chain chain (fetch ∷ []) [] send compiles refl

descendant_keys_exact_example :
    Member send.key (descendant_keys chain "fetch").0
    ↔ ((send.key ≢ "fetch") × DependsOn "fetch" chain.nodes send.key)
descendant_keys_exact_example = descendant_keys_exact chain chain "fetch" send.key compiles
