-- ===== src/Engine/Progress.antt =====
-- The second loop of advanceOnce (pipeline/engine.go) where it schedules no node.
use ody.Base.{
  Map, String, lookup, List, Bool, ◌≡◌, some, All, ◌||◌, true, false, Member, ◌∷◌, not, ◌≢◌, [],
  string_eq, Bool-cases, arith, All-of_mem, inl, All-mem, inr, here, refl, there,
}
use ody.Engine.{Persistence}
use ody.Engine.Scheduling.{is_placed, is_ready, schedule_node, schedule_nodes}
use ody.Pipeline.{NodeDefinition, Definition, compile}
use ody.Pipeline.Order.{Ordered, compile-Ordered}
use ody.Execution.{Result, ok, Execution, PipelineRun, Uuid, succeeded, Result-cases, err_ne_ok}

-- The execution of a node has succeeded.
pub record IsDone (by_node : Map String Execution) (key : String) : Type 0 where
  pub item : Execution
  pub found : lookup key by_node ≡ some item
  pub done : item.status ≡ succeeded

is_ready-true :
    (by_node : Map String Execution) (ds : List String)
    → All (IsDone by_node) ds
    → is_ready by_node ds ≡ true
unfolding is_ready
is_ready-true by_node [] a = refl
is_ready-true by_node (d ∷ ds) a = rw (a.0.found, a.0.done) (is_ready-true by_node ds a.1)

module _ {S : Type 0} (p : Persistence S) (uuid_text : Uuid → String) (run_id : Uuid)
    (run : PipelineRun) (by_node : Map String Execution) (outputs : Map String String) where
  IsPassed : NodeDefinition → Type 0
  IsPassed node =
      (is_placed (lookup node.key by_node) || not (is_ready by_node node.dependencies)) ≡ true

  schedule_nodes-true :
      (nodes : List NodeDefinition) (s : S)
      → (schedule_nodes p uuid_text run_id run by_node outputs nodes true s).0 ≢ ok false
  unfolding schedule_nodes
  schedule_nodes-true [] s h = ok_true_ne_false h
    where
      ok_true_ne_false : ◌≢◌ {A = Result Bool} (ok true) (ok false)
      ok_true_ne_false q = cc
  schedule_nodes-true (node ∷ rest) s h =
      elim (Bool-cases
        (is_placed (lookup node.key by_node) || not (is_ready by_node node.dependencies))) [
          | inl y ↦ schedule_nodes-true rest s (rw (y, schedule_nodes) at h)
          | inr n ↦
              elim (Result-cases (schedule_node p uuid_text run_id run by_node outputs node s).0) [
                | inr (e, r) ↦ err_ne_ok (rw (n, r, schedule_nodes) at h)
                | inl (u, r) ↦ schedule_nodes-true rest _ (rw (n, r, schedule_nodes) at h)
              ]
        ]

  schedule_nodes-false :
      (nodes : List NodeDefinition) (s : S)
      → (schedule_nodes p uuid_text run_id run by_node outputs nodes false s).0 ≡ ok false
      → All IsPassed nodes
  unfolding schedule_nodes IsPassed
  schedule_nodes-false [] s h = tt
  schedule_nodes-false (node ∷ rest) s h =
      elim (Bool-cases
        (is_placed (lookup node.key by_node) || not (is_ready by_node node.dependencies))) [
          | inl y ↦ (y, schedule_nodes-false rest s (rw (y, schedule_nodes) at h))
          | inr n ↦
              elim (Result-cases (schedule_node p uuid_text run_id run by_node outputs node s).0) [
                | inr (e, r) ↦ absurd (err_ne_ok (rw (n, r, schedule_nodes) at h))
                | inl (u, r) ↦ absurd (schedule_nodes-true rest _ (rw (n, r, schedule_nodes) at h))
              ]
        ]

  placed : (a b : Bool) → (a || not b) ≡ true → b ≡ true → a ≡ true
  placed a b h k = ground arith

  passed-IsDone :
      (seen : List String) (nodes : List NodeDefinition)
      → Ordered seen nodes
      → All (IsDone by_node) seen
      → All IsPassed nodes
      → ((node : NodeDefinition)
          → Member node nodes
          → is_placed (lookup node.key by_node) ≡ true
          → IsDone by_node node.key)
      → All (λ (node : NodeDefinition). IsDone by_node node.key) nodes
  unfolding IsPassed
  passed-IsDone seen [] o done passed idle = tt
  passed-IsDone seen (node ∷ rest) o done passed idle =
      let ready = is_ready-true by_node node.dependencies (
        All-of_mem (IsDone by_node) node.dependencies
          (λ d m. All-mem (IsDone by_node) done (All-mem (λ d. Member d seen) o.2 m))) in
      let own = idle node (here refl) (placed _ _ passed.0 ready) in
      (own, passed-IsDone (node.key ∷ seen) rest o.3 (own, done) passed.1 (λ n m. idle n (there m)))

  -- In a pipeline that compiles, a run does not stall: if each of its executions that is not blocked has
  -- succeeded, and the loop of advanceOnce ends without an error and has scheduled no node, then every
  -- node of the pipeline has an execution that has succeeded. So before that, some node is ready, and it
  -- is created or released, or the error of doing so is returned.
  pub schedule_nodes-IsDone :
      (d c : Definition) (s : S)
      → compile d ≡ ok c
      → ((node : NodeDefinition)
          → Member node c.nodes
          → is_placed (lookup node.key by_node) ≡ true
          → IsDone by_node node.key)
      → (schedule_nodes p uuid_text run_id run by_node outputs c.nodes false s).0 ≡ ok false
      → All (λ (node : NodeDefinition). IsDone by_node node.key) c.nodes
  schedule_nodes-IsDone d c s h idle e =
      passed-IsDone [] c.nodes (compile-Ordered d h) tt (schedule_nodes-false c.nodes s e) idle
