-- ===== src/Engine/Ready.antt =====
-- The nodes that advanceOnce (pipeline/engine.go) schedules, and their dependencies.
pub mod Schedule
use ody.Base.{
  List, some, String, Map, Member, lookup, ◌≢◌, ◌≡◌, ◌∷◌, [], All, ◌⊎◌, none, insert, subst, true,
  arith, lookup_of_insert, if◌then◌else◌, Option-cases, string_eq, lookup-insert, inl, ◌==◌, here,
  Bool-cases, inr, ap, ◌||◌, sym, ◌∙◌, lookup-insert_self, there, refl,
}
use ody.Engine.Log.{Action, create_call, release_call, status_call}
use ody.Engine.Scheduling.{Found, broken, sound, collect, is_ready}
use ody.Pipeline.{NodeDefinition, Definition}
use ody.Execution.{
  Uuid, Execution, PipelineRun, CreateExecution, RunStatus, succeeded, blocked, failed, cancelled,
  status_eq,
}

-- The run has an execution of the node that succeeded.
pub record HasSucceeded (items : List Execution) (key : String) : Type 0 where
  pub item : Execution
  pub listed : Member item items
  pub of_node : item.node_key ≡ key
  pub done : item.status ≡ succeeded

-- Why the engine may act on a run: a node of the pipeline is ready, and has no execution, or has
-- one that is blocked; the status is set at the revision that was read.
pub data IsJustified (run_id : Uuid) (run : PipelineRun) (definition : Definition)
    (items : List Execution) : Action → Type 0 where
  may_create :
      {request : CreateExecution} (node : NodeDefinition)
      → Member node definition.nodes
      → All (HasSucceeded items) node.dependencies
      → All (λ e. e.node_key ≢ node.key) items
      → request.node_key ≡ node.key
      → request.pipeline_run_id ≡ some run_id
      → IsJustified run_id run definition items (create_call request)
  may_release :
      {id : Uuid} (node : NodeDefinition) (item : Execution)
      → Member node definition.nodes
      → All (HasSucceeded items) node.dependencies
      → Member item items
      → item.node_key ≡ node.key
      → item.status ≡ blocked
      → item.id ≡ id
      → IsJustified run_id run definition items (release_call id)
  may_set :
      {status : RunStatus}
      → IsJustified run_id run definition items (status_call run_id run.revision status)

-- What the first loop has read of the executions, with `rest` to come.
pub record IsListing (items rest : List Execution) (by_node : Map String Execution) : Type 0 where
  pub entry :
      (k : String) (e : Execution) → lookup k by_node ≡ some e → Member e items × (e.node_key ≡ k)
  pub covers : (e : Execution) → Member e items → Member e rest ⊎ (lookup e.node_key by_node ≢ none)
  pub within : (e : Execution) → Member e rest → Member e items

some_ne_none : {A : Type 0} {a : A} → some a ≢ none
some_ne_none h = cc h

lookup-none_of_insert :
    (k j : String) (e : Execution) (m : Map String Execution)
    → lookup j (insert k e m) ≡ none
    → lookup j m ≡ none
lookup-none_of_insert k j e m h = ground (arith, lookup-insert k j e m, h)

sound_inj : {m n : Map String Execution} {o q : Map String String} → sound m o ≡ sound n q → m ≡ n
sound_inj h = cc h

broken_ne_sound :
    {e : Execution} {m : Map String Execution} {o : Map String String} → broken e ≢ sound m o
broken_ne_sound h = cc h

IsListing-insert :
    (items rest : List Execution) (item : Execution) (m : Map String Execution)
    → IsListing items (item ∷ rest) m
    → IsListing items rest (insert item.node_key item m)
IsListing-insert items rest item m l = record {
  entry = λ k e h. elim (lookup_of_insert item.node_key k item e m h) [
    | inl (p, q) ↦ (
      subst (λ x. Member x items) q (l.within item (here refl)),
      ap (λ (x : Execution). x.node_key) (sym q) ∙ p,
    )
    | inr (n, o) ↦ l.entry k e o
  ];
  covers = λ e i. elim (l.covers e i) [
    | inl (here p) ↦
        inr (rw p (λ n. absurd (some_ne_none (sym (lookup-insert_self item.node_key item m) ∙ n))))
    | inl (there j) ↦ inl j
    | inr ne ↦ inr (λ n. ne (lookup-none_of_insert item.node_key e.node_key item m n))
  ];
  within = λ e j. l.within e (there j);
}

pub collect-IsListing :
    (items rest : List Execution) (m m' : Map String Execution) (o o' : Map String String)
    → IsListing items rest m
    → collect rest m o ≡ sound m' o'
    → IsListing items [] m'
unfolding collect
collect-IsListing items [] m m' o o' l h = subst (IsListing items []) (sound_inj h) l
collect-IsListing items (item ∷ rest) m m' o o' l h =
    elim (Bool-cases (item.status == failed || item.status == cancelled)) [
      | inl t ↦ absurd (broken_ne_sound (sym (ap (λ b. if b then broken item else later) t) ∙ h))
      | inr f ↦
          collect-IsListing items rest (insert item.node_key item m) m' outputs o'
            (IsListing-insert items rest item m l)
            (sym (ap (λ b. if b then broken item else later) f) ∙ h)
    ]
  where
    outputs : Map String String
    outputs = if item.status == succeeded then insert item.node_key item.output o else o

    later : Found
    later = collect rest (insert item.node_key item m) outputs

pub is_ready-All :
    (items : List Execution) (m : Map String Execution) (ds : List String)
    → IsListing items [] m
    → is_ready m ds ≡ true
    → All (HasSucceeded items) ds
unfolding is_ready
is_ready-All items m [] l h = tt
is_ready-All items m (d ∷ ds) l h = elim (Option-cases (lookup d m)) [
  | inl n ↦ absurd (ground (arith, n, h))
  | inr (e, s) ↦ (
    record {
      item = e;
      listed = (l.entry d e s).0;
      of_node = (l.entry d e s).1;
      done = ground (arith, s, h);
    },
    is_ready-All items m ds l (ground (arith, s, h)),
  )
]
