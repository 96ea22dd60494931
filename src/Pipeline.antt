-- ===== src/Pipeline.antt =====
-- pipeline/definition.go and descendantKeys of pipeline/engine.go: the nodes of a pipeline, their
-- validation, the registry, and the nodes that a restart affects.
-- Go's generic node functions differ only in `buildInput`, which decodes, maps and encodes JSON by
-- code of the user: it is a function of the pipeline's input and the stored outputs.
pub mod Order
pub mod Descendants
use Prim.Native.Char.{code}
use ody.Base.{
  String, ℤ, Option, List, Map, Bool, Eq, ◌==◌, some, ◌++◌, find_or, ℕ, if◌then◌else◌, [], true,
  false, ◌∷◌, ◌&&◌, leb, contains, ◌||◌, string_eq, is_nonpos, insert, int_eq, nat_eq, not, lookup,
  none, pair_eq,
}
use ody.Execution.{Error, message, Result, ok, err, wrapped}

-- The outcome of `buildInput`: the encoded input, an error's text, or a panic.
pub data Built : Type 0 where
  built : String → Built
  refused : String → Built
  panicked : String → Built

pub record NodeDefinition : Type 0 where
  pub key : String
  pub task_name : String
  pub task_version : ℤ
  pub max_attempts : ℤ
  pub dependencies : List String
  pub build_input : String → Map String String → Built
  -- The error that the constructor of the node met.
  pub failure : Option Error

pub record Definition : Type 0 where
  pub name : String
  pub version : ℤ
  pub nodes : List NodeDefinition

-- A reference to a node's stored output.
pub record Node : Type 0 where
  pub key : String
  pub pipeline_name : String
  pub pipeline_version : ℤ

-- The parts of a `task.Definition` that a node takes, and what its `Validate` returns.
pub record TaskSpec : Type 0 where
  pub name : String
  pub version : ℤ
  pub max_attempts : ℤ
  pub invalid : Option Error

unfoldable pub reference : Definition → String → Node
reference pipeline key = record {
  key = key;
  pipeline_name = pipeline.name;
  pipeline_version = pipeline.version;
}

unfoldable pub belongs_to : Definition → Node → Bool
belongs_to pipeline node =
    node.pipeline_name == pipeline.name && node.pipeline_version == pipeline.version

unfoldable pub new_node :
    String
    → TaskSpec
    → List String
    → Option Error
    → (String → Map String String → Built)
    → NodeDefinition
new_node key task dependencies failure build_input = record {
  key = key;
  task_name = task.name;
  task_version = task.version;
  max_attempts = task.max_attempts;
  dependencies = dependencies;
  build_input = build_input;
  failure = failure;
}

abbrev foreign : Error
foreign = message "pipeline node dependency belongs to another pipeline"

-- `if mapper == nil { validationErr = … }`; a mapper is the function from the decoded values.
abbrev with_mapper {ℓ} : {A : Type ℓ} → Option A → Option Error → Option Error
with_mapper none failure = some (message "pipeline node mapper is nil")
with_mapper (some mapper) failure = failure

-- `json.Unmarshal` of the pipeline's input, `mapper` and `json.Marshal`, in one function.
unfoldable pub start : Definition → String → TaskSpec → Option (String → Built) → Node × Definition
unfolding reference new_node
start pipeline key task mapper = (
  reference pipeline key,
  record pipeline {
    nodes =
        pipeline.nodes
        ++ (new_node key task [] (with_mapper mapper task.invalid)
              (λ initial outputs. elim mapper [ none ↦ panicked "" | some f ↦ f initial ])
            ∷ []);
  },
)

-- Go's map gives the empty text for a missing output.
abbrev output_of : String → Map String String → String
output_of key outputs = find_or "" key outputs

unfoldable pub then_node :
    Definition → Node → String → TaskSpec → Option (String → Built) → Node × Definition
unfolding reference new_node
then_node pipeline previous key task mapper = (
  reference pipeline key,
  record pipeline {
    nodes =
        pipeline.nodes
        ++ (new_node key task (previous.key ∷ [])
              (if belongs_to pipeline previous
                then with_mapper mapper task.invalid
                else some foreign)
              (λ initial outputs. elim mapper [
                | none ↦ panicked ""
                | some f ↦ f (output_of previous.key outputs)
              ])
            ∷ []);
  },
)

unfoldable pub join2 :
    Definition
    → Node
    → Node
    → String
    → TaskSpec
    → Option (String → String → Built)
    → Node × Definition
unfolding reference new_node belongs_to
join2 pipeline first second key task mapper = (
  reference pipeline key,
  record pipeline {
    nodes =
        pipeline.nodes
        ++ (new_node key task (first.key ∷ second.key ∷ [])
              (if belongs_to pipeline first && belongs_to pipeline second
                then with_mapper mapper task.invalid
                else some foreign)
              (λ initial outputs. elim mapper [
                | none ↦ panicked ""
                | some f ↦ f (output_of first.key outputs) (output_of second.key outputs)
              ])
            ∷ []);
  },
)

-- `unicode.IsSpace`
unfoldable pub is_space : ℕ → Bool
is_space c =
    (leb 9 c && leb c 13)
    || c == 32
    || c == 0x85
    || c == 0xA0
    || c == 0x1680
    || (leb 0x2000 c && leb c 0x200A)
    || c == 0x2028
    || c == 0x2029
    || c == 0x202F
    || c == 0x205F
    || c == 0x3000

-- `strings.TrimSpace`
unfoldable pub trim_left : String → String
unfolding is_space
trim_left String.[] = String.[]
trim_left (String.◌∷◌ c s) =
    let rest = trim_left s in if is_space (code c) then rest else String.◌∷◌ c s

unfoldable pub trim_right : String → String
unfolding is_space
trim_right String.[] = String.[]
trim_right (String.◌∷◌ c s) =
    let rest = trim_right s in
    if is_space (code c) && rest == "" then String.[] else String.◌∷◌ c rest

unfoldable pub trim_space : String → String
unfolding trim_left trim_right
trim_space s = trim_right (trim_left s)

unfoldable pub new_definition : String → ℤ → Definition
unfolding trim_space
new_definition name version = record { name = trim_space name; version = version; nodes = [] }

-- The first dependency that no earlier node declares.
unfoldable pub all_seen : List String → List String → Bool
all_seen seen [] = true
all_seen seen (d ∷ ds) = contains seen d && all_seen seen ds

-- The loop of `validate`: the nodes with their keys trimmed, or the first error.
unfoldable pub validate_nodes : List String → List NodeDefinition → Result (List NodeDefinition)
unfolding all_seen
validate_nodes seen [] = ok []
validate_nodes seen (node ∷ rest) =
    let key = trim_space node.key in
    let later = validate_nodes (key ∷ seen) rest in
    elim node.failure [
      | some e ↦ err (wrapped "pipeline node" e)
      | none ↦
          if key == ""
          then err (message "pipeline node key is empty")
          else if contains seen key
          then err (message "duplicate pipeline node")
          else if not (all_seen seen node.dependencies)
          then err (message "node depends on unknown or forward node")
          else elim later [ err e ↦ err e | ok nodes ↦ ok (record node { key = key } ∷ nodes) ]
    ]

-- `compile` after `validate`, which trims the keys of the nodes in place.
unfoldable pub compile : Definition → Result Definition
unfolding validate_nodes
compile d =
    if d.name == ""
    then err (message "pipeline name is empty")
    else if is_nonpos d.version
    then err (message "pipeline version must be positive")
    else elim (validate_nodes [] d.nodes) [
      | err e ↦ err e
      | ok nodes ↦ ok (record d { nodes = nodes })
    ]

-- `registry.definitions`, keyed by `name@vversion`: the pair of both.
abbrev pub Registry : Type 0
Registry = Map (String × ℤ) Definition

unfoldable pub register : List Definition → Registry → Result Registry
unfolding compile
register [] r = ok r
register (d ∷ rest) r = elim (compile d) [
  | err e ↦ err e
  | ok compiled ↦
      (let later = register rest (insert (compiled.name, compiled.version) compiled r) in
        elim (lookup (compiled.name, compiled.version) r) [
          | some other ↦ err (message "duplicate pipeline")
          | none ↦ later
        ])
]

unfoldable pub new_registry : List Definition → Result Registry
unfolding register
new_registry definitions = register definitions []

-- Whether one of the keys is among the affected.
unfoldable pub touches : List String → List String → Bool
touches affected [] = false
touches affected (d ∷ ds) = contains affected d || touches affected ds

-- The loop of descendantKeys: the keys affected so far, and those still to be found.
unfoldable pub descendants_from : String → List String → List NodeDefinition → List String
unfolding touches
descendants_from root affected [] = []
descendants_from root affected (node ∷ rest) =
    let skip = descendants_from root affected rest in
    let take = descendants_from root (node.key ∷ affected) rest in
    if node.key == root
    then skip
    else if touches affected node.dependencies
    then node.key ∷ take
    else skip

unfoldable pub has_node : String → List NodeDefinition → Bool
has_node root [] = false
has_node root (node ∷ rest) = node.key == root || has_node root rest

unfoldable pub descendant_keys : Definition → String → List String × Bool
unfolding descendants_from has_node
descendant_keys definition root =
    (descendants_from root (root ∷ []) definition.nodes, has_node root definition.nodes)
