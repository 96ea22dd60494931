-- ===== src/Memory/Transition/Machine.antt =====
-- RestartPipelineSubgraph, CreateExecution and Purge follow the state machine too; so every call does.
use ody.Memory.Valid.Create.{fresh_ne}
use ody.Memory.Runs.{set_pipeline_run_status, create_pipeline_run, known_run}
use ody.Memory.Purge.{delete_member, purge_one, purge_each, Candidate, purge, purge_candidates}
use ody.Memory.Create.{create_execution, known_key, known_node}
use ody.Memory.Valid.Reachable.{
  call_restart_subgraph, step, Call, call_create, call_create_run, call_set_run_status, call_purge,
  call_reap,
}
use ody.Base.{
  Map, Option, Member, ◌∷◌, Option-cases, Bool-cases, none, lookup, ◌≡◌, true, inr, inl, there,
  nat_eq, here, arith, some, refl, false, ap, subst, ◌&&◌, [], if◌then◌else◌, ◌==◌, ℕ, List,
  for_range_inv, String, some_inj, sym, ◌∙◌, lookup-insert_ne, string_eq, ◌⊎◌,
}
use ody.Execution.{
  RestartSubgraph, Execution, Uuid, Time, PipelineRun, Result, ok, err, CreateExecution,
  CreatePipelineRun, RunStatus, PurgeResult,
}
use ody.Memory.Control.{
  is_affected, find_root, reset_one, restart_checked, restart_pipeline_subgraph, reset,
  restart_found, in_run,
}
use ody.Memory.{MemoryStore, now, after_now, new_uuid}
use ody.Memory.Valid.{IsValid}
use ody.Memory.Transition.{
  Edge, is_affected, rerun_node, is_active, call_claim, call_heartbeat, call_succeed, call_retry,
  call_fail, call_cancel, call_restart, call_release,
}
use ody.Memory.Transition.Steps.{
  Follows, claim-Follows, reap_expired-Follows, heartbeat-Follows, succeed-Follows,
  retry_execution-Follows, fail-Follows, cancel_execution-Follows, restart_execution-Follows,
  release_execution-Follows,
}
use ody.Memory.Transition.Loops.{
  Changes, Changes-refl, Changes-delete, Midway, Midway-start, Midway-skip, Midway-insert,
}

-- The first loop of RestartPipelineSubgraph lets no active affected node pass.
find_root-inactive :
    (request : RestartSubgraph) (m : Map Uuid Execution) (start : Option Execution)
    {root : Option Execution} (id : Uuid) (e : Execution)
    → find_root request m start ≡ ok root
    → Member (id, e) m
    → is_affected request e ≡ true
    → is_active e.status ≡ false
unfolding find_root
find_root-inactive request [] start id e h m t = elim m [ ]
find_root-inactive request ((j, x) ∷ rest) start id e h (here p) t =
    let q : e ≡ x = ap (λ (y : Uuid × Execution). y.1) p in
    elim (Bool-cases (is_active e.status)) [
      | inr f ↦ f
      | inl a ↦ absurd (
          cc (
            rw
              (
                subst (λ y. is_affected request y ≡ true) q t,
                subst (λ (y : Execution). is_active y.status ≡ true) q a,
              )
              at h))
    ]
find_root-inactive request ((j, x) ∷ rest) start id e h (there m) t =
    elim (Bool-cases (is_affected request x && is_active x.status)) [
      | inl a ↦ absurd (cc (rw a at h))
      | inr f ↦ find_root-inactive request rest _ id e (rw f at h) m t
    ]

module _ (request : RestartSubgraph) where
  abbrev NodeEdge : Execution → Execution → Type 0
  NodeEdge e f = Edge e f (call_restart_subgraph request)

  -- The loop is at work on `m`, none of whose affected nodes is active.
  record Resetting (m rest : Map Uuid Execution) (s : MemoryStore) : Type 0 where
    midway : Midway NodeEdge m rest s.executions
    inactive :
        (id : Uuid) (e : Execution)
        → Member (id, e) rest
        → is_affected request e ≡ true
        → is_active e.status ≡ false

  reset_one-Resetting :
      (at : Time) (m : Map Uuid Execution) (id : Uuid) (e : Execution) (rest : Map Uuid Execution)
      (s : MemoryStore)
      → Resetting m ((id, e) ∷ rest) s
      → Resetting m rest (reset_one request at id e s)
  unfolding reset_one
  reset_one-Resetting at m id e rest s w = elim (Bool-cases (is_affected request e)) [
    | inr f ↦ rw f (record {
      midway = Midway-skip _ id e m rest s.executions w.midway;
      inactive = λ j x i. w.inactive j x (there i);
    })
    | inl t ↦ rw t (record {
      midway =
          Midway-insert _ id e _ m rest s.executions
            (unfold reset in rerun_node t (w.inactive id e (here refl) t) (ground arith) refl)
            w.midway;
      inactive = λ j x i. w.inactive j x (there i);
    })
  ]

  restart_checked-Follows :
      (run : PipelineRun) (s : MemoryStore) (r : Result (Option Execution))
      → IsValid s
      → find_root request s.executions none ≡ r
      → Follows (call_restart_subgraph request) s (restart_checked request run r s).1
  unfolding restart_checked
  restart_checked-Follows run s (err x) v h = Changes-refl _ s.executions
  restart_checked-Follows run s (ok none) v h = Changes-refl _ s.executions
  restart_checked-Follows run s (ok (some root)) v h =
      unfold restart_found in
      (for_range_inv (Resetting s.executions) (reset_one request at)
        (reset_one-Resetting at s.executions) s.executions (after_now s)
        (record {
          midway = Midway-start _ s.executions v.distinct;
          inactive = λ id e m t. find_root-inactive request s.executions none id e h m t;
        })).midway.changed
    where
      at : Time
      at = if request.available_at == 0 then now s else request.available_at

  restart_pipeline_subgraph-Follows :
      (s : MemoryStore)
      → IsValid s
      → Follows (call_restart_subgraph request) s (restart_pipeline_subgraph request s).1
  unfolding restart_pipeline_subgraph
  restart_pipeline_subgraph-Follows s v = elim (Option-cases (lookup request.run_id s.runs)) [
    | inl n ↦ rw (n, restart_pipeline_subgraph) (Changes-refl _ s.executions)
    | inr (run, h) ↦
        rw (h, restart_pipeline_subgraph)
          (restart_checked-Follows run s (find_root request s.executions none) v refl)
  ]

create_execution-Follows :
    (request : CreateExecution) (s : MemoryStore)
    → IsValid s
    → Follows (call_create request) s (create_execution request s).1
unfolding create_execution
create_execution-Follows request s v = elim (Bool-cases (request.task_name == "")) [
  | inl t ↦ rw t (Changes-refl _ s.executions)
  | inr n ↦ rw n (elim (Option-cases (known_key s request)) [
    | inr (id, e) ↦ rw (e, create_execution) (Changes-refl _ s.executions)
    | inl e ↦
        rw (e, create_execution)
          (elim (Option-cases (known_node s request)) [
            | inr (id, p) ↦ rw (p, create_execution) (Changes-refl _ s.executions)
            | inl p ↦
                rw (p, create_execution)
                  (λ id x y h k. inl (
                    some_inj (
                      sym k
                      ∙ lookup-insert_ne (new_uuid s) id _ s.executions (fresh_ne s id x v h)
                      ∙ h)))
          ])
  ])
]

-- Purge removes entries and changes none.
delete_member-Changes :
    (c : Call) (m : Map Uuid Execution) (run id : Uuid) (e : Execution) (rest : Map Uuid Execution)
    (r : ℕ × MemoryStore)
    → Changes (λ e f. Edge e f c) m r.1.executions
    → Changes (λ e f. Edge e f c) m (delete_member run id e r).1.executions
unfolding delete_member
delete_member-Changes c m run id e rest (n, s) ch = elim (Bool-cases (in_run run e)) [
  | inl t ↦ rw t (Changes-delete _ m s.executions id ch)
  | inr f ↦ rw f ch
]

purge_one-Changes :
    (c : Call) (m : Map Uuid Execution) (x : Candidate) (r : PurgeResult × MemoryStore)
    → Changes (λ e f. Edge e f c) m r.1.executions
    → Changes (λ e f. Edge e f c) m (purge_one x r).1.executions
unfolding purge_one
purge_one-Changes c m x (result, s) ch = elim (Bool-cases x.pipeline) [
  | inr f ↦ rw f (Changes-delete _ m s.executions x.id ch)
  | inl t ↦ rw t (
      for_range_inv (λ rest r. Changes (λ e f. Edge e f c) m r.1.executions) (delete_member x.id)
        (delete_member-Changes c m x.id) s.executions (result.executions, s) ch)
]

purge_each-Changes :
    (c : Call) (m : Map Uuid Execution) (xs : List Candidate) (r : PurgeResult × MemoryStore)
    → Changes (λ e f. Edge e f c) m r.1.executions
    → Changes (λ e f. Edge e f c) m (purge_each xs r).1.executions
unfolding purge_each
purge_each-Changes c m [] r ch = ch
purge_each-Changes c m (x ∷ xs) r ch =
    purge_each-Changes c m xs (purge_one x r) (purge_one-Changes c m x r ch)

set_pipeline_run_status-Follows :
    (id : Uuid) (revision : ℕ) (status : RunStatus) (text : String) (s : MemoryStore) (c : Call)
    → Follows c s (set_pipeline_run_status id revision status text s).1
unfolding set_pipeline_run_status
set_pipeline_run_status-Follows id revision status text s c =
    elim (Option-cases (lookup id s.runs)) [
      | inl n ↦ rw (n, set_pipeline_run_status) (Changes-refl _ s.executions)
      | inr (run, h) ↦
          rw (h, set_pipeline_run_status)
            (elim (Bool-cases (run.revision == revision)) [
              | inl t ↦ rw t (Changes-refl _ s.executions)
              | inr f ↦ rw f (Changes-refl _ s.executions)
            ])
    ]

create_pipeline_run-Follows :
    (request : CreatePipelineRun) (s : MemoryStore) (c : Call)
    → Follows c s (create_pipeline_run request s).1
unfolding create_pipeline_run
create_pipeline_run-Follows request s c = elim (Option-cases (known_run s request)) [
  | inl n ↦ rw (n, create_pipeline_run) (Changes-refl _ s.executions)
  | inr (id, h) ↦ rw (h, create_pipeline_run) (Changes-refl _ s.executions)
]

-- In a well-formed store a call leaves each execution that stays as it was, or moves it along an
-- edge of the state machine that belongs to this call.
pub step-Follows : (c : Call) (s : MemoryStore) → IsValid s → Follows c s (step c s)
unfolding step
step-Follows (call_create request) s v = create_execution-Follows request s v
step-Follows (call_claim owner keys limit lease) s v = claim-Follows owner keys limit lease s v
step-Follows call_reap s v = reap_expired-Follows s v
step-Follows (call_heartbeat id token lease) s v = heartbeat-Follows id token s lease
step-Follows (call_succeed id token output) s v = succeed-Follows id token s output
step-Follows (call_retry id token text delay) s v = retry_execution-Follows id token s text delay
step-Follows (call_fail id token text) s v = fail-Follows id token s text
step-Follows (call_cancel id reason) s v = cancel_execution-Follows s id reason
step-Follows (call_restart id at) s v = restart_execution-Follows s id at
step-Follows (call_restart_subgraph request) s v = restart_pipeline_subgraph-Follows request s v
step-Follows (call_release id input at) s v = release_execution-Follows s id input at
step-Follows (call_create_run request) s v =
    create_pipeline_run-Follows request s (call_create_run request)
step-Follows (call_set_run_status id revision status text) s v =
    set_pipeline_run_status-Follows id revision status text s
      (call_set_run_status id revision status text)
step-Follows (call_purge before limit) s v =
    unfold purge in
    purge_each-Changes (call_purge before limit) s.executions (purge_candidates before limit s)
      (record { executions = 0; pipeline_runs = 0 }, s) (Changes-refl _ s.executions)

-- In a well-formed store, whatever method is called: an execution that is stored before and after
-- the call is unchanged, or has moved along an edge of the state machine that belongs to this call.
pub step_moves :
    (c : Call) (s : MemoryStore) (id : Uuid) (e f : Execution)
    → IsValid s
    → lookup id s.executions ≡ some e
    → lookup id (step c s).executions ≡ some f
    → (f ≡ e) ⊎ Edge e f c
step_moves c s id e f v before after = step-Follows c s v id e f before after
