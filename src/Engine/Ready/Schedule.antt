-- ===== src/Engine/Ready/Schedule.antt =====
-- What advanceOnce (pipeline/engine.go) does to its store, call by call.
use ody.Base.{
  ◌≡◌, String, List, inl, Map, [], some, inr, Member, Bool, All, lookup, ◌∷◌, arith, Bool-cases,
  refl, false, there, true, ◌||◌, Option-cases, not, All-of_mem, here, ◌≢◌, ap, ◌∙◌, string_eq,
  length, ◌==◌, ◌&&◌, values, nat_eq,
}
use ody.Engine.{Persistence}
use ody.Engine.Log.{Action, logged}
use ody.Engine.Scheduling.{
  Found, broken, sound, collect, is_ready, is_placed, place, schedule_node, schedule_nodes, settle,
  advance_found, node_request, safe_build_input, all_succeeded,
}
use ody.Engine.Advance.{advance_once, advance_run, definition_of}
use ody.Engine.Ready.{
  IsJustified, may_create, may_release, may_set, IsListing, collect-IsListing, is_ready-All,
}
use ody.Pipeline.{NodeDefinition, Definition, Registry}
use ody.Execution.{
  Result-cases, Uuid, Execution, PipelineRun, ok, status_eq, is_terminal_run, run_pending,
  run_status_eq,
}

module _ {S : Type 0} (p : Persistence S) (uuid_text : Uuid → String) (run_id : Uuid)
    (run : PipelineRun) (definition : Definition) (items : List Execution) where
  abbrev Justified : Action → Type 0
  Justified = IsJustified run_id run definition items

  schedule_node-Justified :
      (m : Map String Execution) (o : Map String String) (node : NodeDefinition)
      (s : List Action × S)
      → IsListing items [] m
      → Member node definition.nodes
      → is_placed (lookup node.key m) ≡ false
      → is_ready m node.dependencies ≡ true
      → All Justified s.0
      → All Justified (schedule_node (logged p) uuid_text run_id run m o node s).1.0
  unfolding schedule_node place node_request
  schedule_node-Justified m o node s l known unplaced ready a =
      elim (Result-cases (safe_build_input node run.input o)) [
        | inr (e, h) ↦ rw (h, schedule_node) (may_set, a)
        | inl (input, h) ↦ elim (Option-cases (lookup node.key m)) [
          | inl n ↦
              rw (h, n, schedule_node)
                (
                  may_create node known (is_ready-All items m node.dependencies l ready)
                      (All-of_mem (λ e. e.node_key ≢ node.key) items
                        (λ e i same. elim (l.covers e i) [
                          | inl j ↦ elim j [ ]
                          | inr ne ↦ ne (ap (λ k. lookup k m) same ∙ n)
                        ]))
                      refl refl,
                  a,
                )
          | inr (e, found) ↦
              rw (h, found, schedule_node)
                (
                  may_release node e known (is_ready-All items m node.dependencies l ready)
                      (l.entry node.key e found).0 (l.entry node.key e found).1
                      (ground (arith, found, unplaced)) refl,
                  a,
                )
        ]
      ]

  schedule_nodes-Justified :
      (m : Map String Execution) (o : Map String String) (rest : List NodeDefinition)
      (changed : Bool) (s : List Action × S)
      → IsListing items [] m
      → ((n : NodeDefinition) → Member n rest → Member n definition.nodes)
      → All Justified s.0
      → All Justified (schedule_nodes (logged p) uuid_text run_id run m o rest changed s).1.0
  unfolding schedule_nodes
  schedule_nodes-Justified m o [] changed s l known a = a
  schedule_nodes-Justified m o (node ∷ rest) changed s l known a =
      let known_rest : (n : NodeDefinition) → Member n rest → Member n definition.nodes =
        λ n j. known n (there j) in
      elim (Bool-cases (is_placed (lookup node.key m) || not (is_ready m node.dependencies))) [
        | inl t ↦
            rw (t, schedule_nodes) (schedule_nodes-Justified m o rest changed s l known_rest a)
        | inr f ↦
            (let after =
                schedule_node-Justified m o node s l (known node (here refl)) (ground arith)
                  (ground arith) a in
              let next = (schedule_node (logged p) uuid_text run_id run m o node s).1 in
              elim (Result-cases (schedule_node (logged p) uuid_text run_id run m o node s).0) [
                | inl (u, h) ↦
                    rw (f, h, schedule_nodes)
                      (schedule_nodes-Justified m o rest true next l known_rest after)
                | inr (e, h) ↦ rw (f, h, schedule_nodes) after
              ])
      ]

  settle-Justified :
      (m : Map String Execution) (changed : Bool) (s : List Action × S)
      → All Justified s.0
      → All Justified (settle (logged p) uuid_text run_id run definition m changed s).1.0
  unfolding settle
  settle-Justified m changed s a =
      elim (Bool-cases (
        length definition.nodes == 0
        || (length m == length definition.nodes && all_succeeded (values m)))) [
          | inl t ↦ rw t (may_set, a)
          | inr f ↦ elim (Bool-cases (changed || run.status == run_pending)) [
            | inl t ↦ rw (f, t) (may_set, a)
            | inr g ↦ rw (f, g) a
          ]
        ]

  advance_found-Justified :
      (found : Found) (s : List Action × S)
      → collect items [] [] ≡ found
      → All Justified s.0
      → All Justified (advance_found (logged p) uuid_text run_id run definition found s).1.0
  unfolding advance_found lookup
  advance_found-Justified (broken item) s h a = (may_set, a)
  advance_found-Justified (sound m o) s h a =
      let l = collect-IsListing items items [] m [] o start h in
      let after = schedule_nodes-Justified m o definition.nodes false s l (λ n j. j) a in
      elim (Result-cases
        (schedule_nodes (logged p) uuid_text run_id run m o definition.nodes false s).0) [
          | inl (changed, r) ↦ rw (r, advance_found) (settle-Justified m changed _ after)
          | inr (e, r) ↦ rw (r, advance_found) after
        ]
    where
      start : IsListing items items []
      start = record {
        entry = λ k e q. absurd (ground (arith, q));
        covers = λ e j. inl j;
        within = λ e j. j;
      }

  -- Whatever the store does, advanceOnce creates executions only for nodes of the pipeline that have
  -- none and whose dependencies have all succeeded, releases only blocked executions of such nodes,
  -- and sets the status of its own run only, at the revision that it has read.
  pub advance_once-Justified :
      (registry : Registry) (s : S)
      → p.get_run run_id s ≡ ok run
      → definition_of registry run ≡ some definition
      → p.list_tasks run_id s ≡ ok items
      → All Justified (advance_once (logged p) uuid_text run_id registry ([], s)).1.0
  unfolding advance_once advance_run
  advance_once-Justified registry s got defined listed =
      elim (Bool-cases (is_terminal_run run.status)) [
        | inl t ↦ rw (got, t, advance_once, advance_run) tt
        | inr f ↦
            rw (got, f, defined, listed, advance_once, advance_run)
              (advance_found-Justified (collect items [] []) ([], s) refl tt)
      ]
