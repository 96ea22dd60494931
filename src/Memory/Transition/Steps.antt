-- ===== src/Memory/Transition/Steps.antt =====
-- Each method that writes follows the state machine of executions.
use ody.Memory.Claim.{deliver, claim_each, claim, candidates}
use ody.Memory.Control.{cancel_execution, after_start, restart_execution, release_execution}
use ody.Base.{
  for_range_inv, String, Map, [], Bool-cases, List, leb, ◌∷◌, inl, leb→le, inr, arith, ◌≡◌, refl, ℤ,
  Option-cases, lookup, Pairwise, ◌==◌, Member, some, nat_eq, there, lookup-insert_ne, All-mem, ◌∙◌,
  lookup_of_insert, here, some_inj, sym, ap, subst,
}
use ody.Memory.Lease.{
  reap_one, reap_expired, heartbeat, succeed, fail, retry_execution, if_owned, is_exhausted, reap,
}
use ody.Execution.{Execution, Uuid, Result, Time, Duration, ok, err, TaskKey, status_eq}
use ody.Memory.{new_uuid, MemoryStore, now, after_now, owned}
use ody.Memory.Valid.{IsValid}
use ody.Memory.Valid.Claim.{WasEligible, mem_of_mem-candidates}
use ody.Memory.Valid.Lease.{owned-eq-ok}
use ody.Memory.Transition.Loops.{
  Changes, Changes-refl, Changes-insert, Midway, Midway-start, Midway-skip, Midway-insert,
}
use ody.Memory.Delivery.{Apart, candidates-Apart}
use ody.Memory.Valid.Reachable.{
  Call, call_claim, call_reap, call_heartbeat, call_succeed, call_retry, call_fail, call_cancel,
  call_restart, call_release,
}
use ody.Memory.Transition.{
  Edge, HeldBy, renewed, completed, given_up, exhausted, reaped, postponed, is_terminal, is_active,
  dropped, rerun, blocked, released, claimed,
}

-- What the call may do to one execution.
abbrev pub Follows : Call → MemoryStore → MemoryStore → Type 0
Follows c s t = Changes (λ e f. Edge e f c) s.executions t.executions

module _ (c : Call) (s : MemoryStore) (k : Execution → MemoryStore) where
  if_owned-Follows :
      (r : Result Execution)
      → ((e : Execution) → r ≡ ok e → Follows c s (k e))
      → Follows c s (if_owned r k s).1
  if_owned-Follows (err x) h = Changes-refl _ s.executions
  if_owned-Follows (ok e) h = h e refl

module _ (id token : Uuid) (s : MemoryStore) where
  pub heartbeat-Follows :
      (lease : Duration) → Follows (call_heartbeat id token lease) s (heartbeat id token lease s).1
  unfolding heartbeat
  heartbeat-Follows lease = if_owned-Follows _ s _ (owned s id token) λ e h.
      let o = owned-eq-ok s id token h in
      Changes-insert _ s.executions id e _ o.0 (
        renewed (record { delivered = o.1; token_of = o.2 })
          (record { delivered = o.1; token_of = o.2 }))

  pub succeed-Follows :
      (output : String) → Follows (call_succeed id token output) s (succeed id token output s).1
  unfolding succeed
  succeed-Follows output = if_owned-Follows _ s _ (owned s id token) λ e h.
      let o = owned-eq-ok s id token h in
      Changes-insert _ s.executions id e _ o.0
        (completed (record { delivered = o.1; token_of = o.2 }) refl refl)

  pub fail-Follows : (text : String) → Follows (call_fail id token text) s (fail id token text s).1
  unfolding fail
  fail-Follows text = if_owned-Follows _ s _ (owned s id token) λ e h.
      let o = owned-eq-ok s id token h in
      Changes-insert _ s.executions id e _ o.0
        (given_up (record { delivered = o.1; token_of = o.2 }) refl)

  pub retry_execution-Follows :
      (text : String) (delay : Duration)
      → Follows (call_retry id token text delay) s (retry_execution id token text delay s).1
  unfolding retry_execution
  retry_execution-Follows text delay = if_owned-Follows _ s _ (owned s id token) λ e h.
      let o = owned-eq-ok s id token h in
      let by : HeldBy token e = record { delivered = o.1; token_of = o.2 } in
      elim (Bool-cases (leb e.max_attempts e.attempt)) [
        | inl t ↦ rw t (Changes-insert _ s.executions id e _ o.0 (exhausted by (leb→le _ _ t) refl))
        | inr f ↦ rw f (Changes-insert _ s.executions id e _ o.0 (postponed by (ground arith) refl))
      ]

reap_one-Midway :
    (at : Time) (m : Map Uuid Execution) (id : Uuid) (e : Execution) (rest : Map Uuid Execution)
    (r : List Uuid × MemoryStore)
    → Midway (λ e f. Edge e f call_reap) m ((id, e) ∷ rest) r.1.executions
    → Midway (λ e f. Edge e f call_reap) m rest (reap_one at id e r).1.executions
unfolding reap_one
reap_one-Midway at m id e rest (runs, s) w = elim (Bool-cases (is_exhausted at e)) [
  | inl t ↦ rw t (
      Midway-insert _ id e _ m rest s.executions
        (unfold is_exhausted reap in reaped (ground arith) (ground arith) refl) w)
  | inr f ↦ rw f (Midway-skip _ id e m rest s.executions w)
]

pub reap_expired-Follows : (s : MemoryStore) → IsValid s → Follows call_reap s (reap_expired s).1
unfolding reap_expired
reap_expired-Follows s v =
    (for_range_inv (λ rest r. Midway (λ e f. Edge e f call_reap) s.executions rest r.1.executions)
      (reap_one (now s)) (reap_one-Midway (now s) s.executions) s.executions ([], after_now s)
      (Midway-start _ s.executions v.distinct)).changed

module _ (owner : String) (keys : List TaskKey) (limit : ℤ) (lease : Duration) where
  abbrev claim_call : Call
  claim_call = call_claim owner keys limit lease

  -- The candidates still to come are stored as the candidates' filter saw them.
  claim_each-Changes :
      (at : Time) (m : Map Uuid Execution) (cs : List Execution) (s : MemoryStore)
      → Pairwise Apart cs
      → ((c : Execution)
          → Member c cs
          → (lookup c.id m ≡ some c) × (lookup c.id s.executions ≡ some c) × WasEligible keys at c)
      → Changes (λ e f. Edge e f claim_call) m s.executions
      → Changes (λ e f. Edge e f claim_call) m (claim_each owner at lease cs s).1.executions
  unfolding claim_each
  claim_each-Changes at m [] s p due ch = ch
  claim_each-Changes at m (c ∷ cs) s p due ch =
      claim_each-Changes at m cs _ p.1
        (λ d i.
          let old = due d (there i) in
          (
            old.0,
            lookup-insert_ne c.id d.id _ s.executions (All-mem (Apart c) p.0 i) ∙ old.1,
            old.2,
          ))
        (λ id e f h k.
          elim (lookup_of_insert c.id id (deliver owner (new_uuid s) at lease c) f s.executions k) [
            | inl (q, new) ↦
                (let first = due c (here refl) in
                  let c_e : c ≡ e = some_inj (sym first.0 ∙ ap (λ i. lookup i m) q ∙ h) in
                  inr (
                    subst (λ x. Edge x f claim_call) c_e
                      (subst (λ x. Edge c x claim_call) new (claimed at first.2 refl refl))))
            | inr (ne, o) ↦ ch id e f h o
          ])

  pub claim-Follows :
      (s : MemoryStore) → IsValid s → Follows claim_call s (claim owner keys limit lease s).1
  unfolding claim
  claim-Follows s v =
      claim_each-Changes (now s) s.executions (candidates keys limit s) (after_now s)
        (candidates-Apart keys limit s v)
        (λ c m. let d = mem_of_mem-candidates keys limit s v m in (d.0, d.0, d.1))
        (Changes-refl _ s.executions)

module _ (s : MemoryStore) where
  pub cancel_execution-Follows :
      (id : Uuid) (reason : String)
      → Follows (call_cancel id reason) s (cancel_execution id reason s).1
  unfolding cancel_execution
  cancel_execution-Follows id reason = elim (Option-cases (lookup id s.executions)) [
    | inl n ↦ rw (n, cancel_execution) (Changes-refl _ s.executions)
    | inr (e, h) ↦
        rw (h, cancel_execution)
          (elim (Bool-cases (is_terminal e.status)) [
            | inl t ↦ rw t (Changes-refl _ s.executions)
            | inr f ↦ rw f (Changes-insert _ s.executions id e _ h (dropped f refl))
          ])
  ]

  executions-after_start : (at : Time) → (after_start at s).executions ≡ s.executions
  executions-after_start at = ground arith

  pub restart_execution-Follows :
      (id : Uuid) (at : Time) → Follows (call_restart id at) s (restart_execution id at s).1
  unfolding restart_execution
  restart_execution-Follows id at = elim (Option-cases (lookup id s.executions)) [
    | inl n ↦ rw (n, restart_execution) (Changes-refl _ s.executions)
    | inr (e, h) ↦
        rw (h, restart_execution)
          (elim (Option-cases e.pipeline_run_id) [
            | inr (run, p) ↦ rw p (Changes-refl _ s.executions)
            | inl p ↦ rw p (elim (Bool-cases (is_active e.status)) [
              | inl t ↦ rw t (Changes-refl _ s.executions)
              | inr f ↦
                  rw (f, executions-after_start at)
                    (Changes-insert _ s.executions id e _ h (rerun f p refl refl))
            ])
          ])
  ]

  pub release_execution-Follows :
      (id : Uuid) (input : String) (at : Time)
      → Follows (call_release id input at) s (release_execution id input at s).1
  unfolding release_execution
  release_execution-Follows id input at = elim (Option-cases (lookup id s.executions)) [
    | inl n ↦ rw (n, release_execution) (Changes-refl _ s.executions)
    | inr (e, h) ↦
        rw (h, release_execution)
          (elim (Bool-cases (e.status == blocked)) [
            | inr f ↦ rw f (Changes-refl _ s.executions)
            | inl t ↦
                rw (t, executions-after_start at)
                  (Changes-insert _ s.executions id e _ h (released (ground arith) refl refl))
          ])
  ]
