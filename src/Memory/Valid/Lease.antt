-- ===== src/Memory/Valid/Lease.antt =====
-- ReapExpired and the methods of a lease's holder keep the store well-formed.
use ody.Base.{
  String, ◌≡◌, refl, some, List, [], ◌∷◌, Map, for_range_inv, lookup, inl, inr, arith, Bool-cases,
  nat_eq, leb,
}
use ody.Execution.{
  Uuid, Time, Duration, Execution, running, status_eq, is_terminal, Result, ok, err,
}
use ody.Memory.{MemoryStore, now, after_now, owned}
use ody.Memory.Lease.{
  is_exhausted, reap, reap_one, reap_expired, if_owned, heartbeat, complete, succeed, give_up,
  postpone, retry_execution, fail,
}
use ody.Memory.Valid.{IsConsistent, IsValid}
use ody.Memory.Valid.Loop.{after_now-IsValid, InLoop, InLoop-commit, InLoop-skip, InLoop-start}
use ody.Memory.Valid.Update.{put_execution-IsValid, commit-IsValid}

-- The three ways in which a delivery ends, and the postponement.
complete-IsConsistent :
    (output : String) (at : Time) (e : Execution)
    → IsConsistent e
    → IsConsistent (complete output at e)
unfolding complete is_terminal
complete-IsConsistent output at e c = ground arith

give_up-IsConsistent :
    (text : String) (at : Time) (e : Execution) → IsConsistent e → IsConsistent (give_up text at e)
unfolding give_up is_terminal
give_up-IsConsistent text at e c = ground arith

reap-IsConsistent : (at : Time) (e : Execution) → IsConsistent e → IsConsistent (reap at e)
unfolding reap is_terminal
reap-IsConsistent at e c = ground arith

postpone-IsConsistent :
    (text : String) (at : Time) (delay : Duration) (e : Execution)
    → e.status ≡ running
    → IsConsistent e
    → IsConsistent (postpone text at delay e)
unfolding postpone is_terminal
postpone-IsConsistent text at delay e r c = ground arith

-- What `owned` has checked.
pub owned-eq-ok :
    (s : MemoryStore) (id token : Uuid) {e : Execution}
    → owned s id token ≡ ok e
    → (lookup id s.executions ≡ some e) × (e.status ≡ running) × (e.lease_token ≡ token)
unfolding owned
owned-eq-ok s id token h = ground arith

module _ (s : MemoryStore) (k : Execution → MemoryStore) where
  pub if_owned-IsValid :
      (r : Result Execution)
      → IsValid s
      → ((e : Execution) → r ≡ ok e → IsValid (k e))
      → IsValid (if_owned r k s).1
  if_owned-IsValid (err x) v h = v
  if_owned-IsValid (ok e) v h = h e refl

module _ (id token : Uuid) (s : MemoryStore) (v : IsValid s) where
  pub heartbeat-IsValid : (lease : Duration) → IsValid (heartbeat id token lease s).1
  unfolding heartbeat
  heartbeat-IsValid lease = if_owned-IsValid s _ (owned s id token) v λ e h.
      let o = owned-eq-ok s id token h in
      let c = v.consistent id e o.0 in
      put_execution-IsValid (after_now s) id e _ o.0 (ground arith) (ground arith)
        (after_now-IsValid s v)

  pub succeed-IsValid : (output : String) → IsValid (succeed id token output s).1
  unfolding succeed
  succeed-IsValid output = if_owned-IsValid s _ (owned s id token) v λ e h.
      let o = owned-eq-ok s id token h in
      commit-IsValid (after_now s) id e _ _ _ o.0 (ground arith)
        (complete-IsConsistent output (now s) e (v.consistent id e o.0)) (after_now-IsValid s v)

  pub fail-IsValid : (text : String) → IsValid (fail id token text s).1
  unfolding fail
  fail-IsValid text = if_owned-IsValid s _ (owned s id token) v λ e h.
      let o = owned-eq-ok s id token h in
      commit-IsValid (after_now s) id e _ _ _ o.0 (ground arith)
        (give_up-IsConsistent text (now s) e (v.consistent id e o.0)) (after_now-IsValid s v)

  pub retry_execution-IsValid :
      (text : String) (delay : Duration) → IsValid (retry_execution id token text delay s).1
  unfolding retry_execution
  retry_execution-IsValid text delay = if_owned-IsValid s _ (owned s id token) v λ e h.
      let o = owned-eq-ok s id token h in
      let c = v.consistent id e o.0 in
      elim (Bool-cases (leb e.max_attempts e.attempt)) [
        | inl t ↦ rw t (
            commit-IsValid (after_now s) id e _ _ _ o.0 (ground arith)
              (give_up-IsConsistent text (now s) e c) (after_now-IsValid s v))
        | inr f ↦ rw f (
            commit-IsValid (after_now s) id e _ _ _ o.0 (ground arith)
              (postpone-IsConsistent text (now s) delay e o.1 c) (after_now-IsValid s v))
      ]

reap_one-InLoop :
    (at : Time) (id : Uuid) (e : Execution) (m : Map Uuid Execution) (r : List Uuid × MemoryStore)
    → InLoop ((id, e) ∷ m) r.1
    → InLoop m (reap_one at id e r).1
unfolding reap_one
reap_one-InLoop at id e m (runs, s) l = elim (Bool-cases (is_exhausted at e)) [
  | inl t ↦ rw t (InLoop-commit id e _ m s _ _ (ground arith) (reap-IsConsistent at e) l)
  | inr f ↦ rw f (InLoop-skip id e m s l)
]

pub reap_expired-IsValid : (s : MemoryStore) → IsValid s → IsValid (reap_expired s).1
unfolding reap_expired
reap_expired-IsValid s v =
    (for_range_inv (λ m r. InLoop m r.1) (reap_one (now s)) (reap_one-InLoop (now s)) s.executions
      ([], after_now s) (InLoop-start (after_now s) (after_now-IsValid s v))).valid
