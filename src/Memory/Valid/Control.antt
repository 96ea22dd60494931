-- ===== src/Memory/Valid/Control.antt =====
-- CancelExecution, RestartExecution, RestartPipelineSubgraph and ReleaseExecution keep the store
-- well-formed.
use ody.Base.{
  String, ◌≡◌, refl, ◌⊎◌, inl, inr, Option, none, some, ◌∷◌, Map, lookup, for_range_inv, arith,
  Bool-cases, Option-cases, is_some, ◌==◌, nat_eq, if◌then◌else◌,
}
use ody.Execution.{
  Uuid, Time, Status, pending, blocked, status_eq, Execution, PipelineRun, RestartSubgraph,
  is_terminal, is_active, Result, ok, err,
}
use ody.Memory.{MemoryStore, now, after_now}
use ody.Memory.Control.{
  cancel, cancel_execution, reset, start_time, after_start, restart_execution, is_affected,
  find_root, subgraph_status, reset_one, restart_found, restart_checked, restart_pipeline_subgraph,
  release, release_execution,
}
use ody.Memory.Valid.{IsConsistent, IsValid}
use ody.Memory.Valid.Loop.{after_now-IsValid, InLoop, InLoop-commit, InLoop-skip, InLoop-start}
use ody.Memory.Valid.Update.{put_execution-IsValid, commit-IsValid, frame-IsValid}

cancel-IsConsistent :
    (reason : String) (at : Time) (e : Execution)
    → IsConsistent e
    → IsConsistent (cancel reason at e)
unfolding cancel is_terminal
cancel-IsConsistent reason at e c = ground arith

reset-IsConsistent :
    (status : Status) (at : Time) (e : Execution)
    → (status ≡ pending) ⊎ (status ≡ blocked)
    → IsConsistent e
    → IsConsistent (reset status at e)
unfolding reset is_terminal
reset-IsConsistent status at e h c = ground arith

release-IsConsistent :
    (input : String) (at : Time) (e : Execution)
    → e.status ≡ blocked
    → IsConsistent e
    → IsConsistent (release input at e)
unfolding release is_terminal
release-IsConsistent input at e h c = ground arith

module _ (s : MemoryStore) (v : IsValid s) where
  pub cancel_execution-IsValid :
      (id : Uuid) (reason : String) → IsValid (cancel_execution id reason s).1
  unfolding cancel_execution
  cancel_execution-IsValid id reason = elim (Option-cases (lookup id s.executions)) [
    | inl n ↦ rw (n, cancel_execution) v
    | inr (e, h) ↦
        rw (h, cancel_execution)
          (elim (Bool-cases (is_terminal e.status)) [
            | inl t ↦ rw t v
            | inr f ↦ rw f (
                commit-IsValid (after_now s) id e _ _ _ h (ground arith)
                  (cancel-IsConsistent reason (now s) e (v.consistent id e h))
                  (after_now-IsValid s v))
          ])
  ]

  after_start-IsValid : (at : Time) → IsValid (after_start at s)
  after_start-IsValid at = elim (Bool-cases (at == 0)) [
    | inl t ↦ rw t (after_now-IsValid s v)
    | inr f ↦ rw f v
  ]

  executions-after_start : (at : Time) → (after_start at s).executions ≡ s.executions
  executions-after_start at = ground arith

  pub restart_execution-IsValid : (id : Uuid) (at : Time) → IsValid (restart_execution id at s).1
  unfolding restart_execution
  restart_execution-IsValid id at = elim (Option-cases (lookup id s.executions)) [
    | inl n ↦ rw (n, restart_execution) v
    | inr (e, h) ↦
        rw (h, restart_execution)
          (elim (Bool-cases (is_some e.pipeline_run_id)) [
            | inl t ↦ rw t v
            | inr f ↦ rw f (elim (Bool-cases (is_active e.status)) [
              | inl t ↦ rw t v
              | inr f ↦ rw f (
                  commit-IsValid (after_start at s) id e _ _ _ (rw executions-after_start h)
                    (ground arith)
                    (reset-IsConsistent pending (start_time at s) e (inl refl)
                      (v.consistent id e h))
                    (after_start-IsValid at))
            ])
          ])
  ]

  pub release_execution-IsValid :
      (id : Uuid) (input : String) (at : Time) → IsValid (release_execution id input at s).1
  unfolding release_execution
  release_execution-IsValid id input at = elim (Option-cases (lookup id s.executions)) [
    | inl n ↦ rw (n, release_execution) v
    | inr (e, h) ↦
        rw (h, release_execution)
          (elim (Bool-cases (e.status == blocked)) [
            | inr f ↦ rw f v
            | inl t ↦ rw t (
                put_execution-IsValid (after_start at s) id e _ (rw executions-after_start h)
                  (ground arith)
                  (release-IsConsistent input (start_time at s) e (ground arith)
                    (v.consistent id e h))
                  (after_start-IsValid at))
          ])
  ]

reset_one-InLoop :
    (request : RestartSubgraph) (at : Time) (id : Uuid) (e : Execution) (m : Map Uuid Execution)
    (s : MemoryStore)
    → InLoop ((id, e) ∷ m) s
    → InLoop m (reset_one request at id e s)
unfolding reset_one
reset_one-InLoop request at id e m s l = elim (Bool-cases (is_affected request e)) [
  | inl t ↦ rw t (
      InLoop-commit id e _ m s _ _ (ground arith)
        (reset-IsConsistent (subgraph_status request e) at e (ground arith)) l)
  | inr f ↦ rw f (InLoop-skip id e m s l)
]

-- Writing a run touches no execution.
pub put_run-IsValid :
    (s : MemoryStore) (runs : Map Uuid PipelineRun) → IsValid s → IsValid (record s { runs = runs })
put_run-IsValid s runs v = frame-IsValid s _ _ _ _ _ (omega arith) v

restart_found-IsValid :
    (request : RestartSubgraph) (run : PipelineRun) (root : Execution) (s : MemoryStore)
    → IsValid s
    → IsValid (restart_found request run root s).1
unfolding restart_found
restart_found-IsValid request run root s v =
    put_run-IsValid _ _
      (for_range_inv InLoop (reset_one request at) (reset_one-InLoop request at) s.executions
        (after_now s) (InLoop-start (after_now s) (after_now-IsValid s v))).valid
  where
    at : Time
    at = if request.available_at == 0 then now s else request.available_at

restart_checked-IsValid :
    (request : RestartSubgraph) (run : PipelineRun) (r : Result (Option Execution))
    (s : MemoryStore)
    → IsValid s
    → IsValid (restart_checked request run r s).1
unfolding restart_checked
restart_checked-IsValid request run (err e) s v = v
restart_checked-IsValid request run (ok none) s v = v
restart_checked-IsValid request run (ok (some root)) s v =
    restart_found-IsValid request run root s v

pub restart_pipeline_subgraph-IsValid :
    (request : RestartSubgraph) (s : MemoryStore)
    → IsValid s
    → IsValid (restart_pipeline_subgraph request s).1
unfolding restart_pipeline_subgraph
restart_pipeline_subgraph-IsValid request s v = elim (Option-cases (lookup request.run_id s.runs)) [
  | inl n ↦ rw (n, restart_pipeline_subgraph) v
  | inr (run, h) ↦
      rw (h, restart_pipeline_subgraph)
        (restart_checked-IsValid request run (find_root request s.executions none) s v)
]
