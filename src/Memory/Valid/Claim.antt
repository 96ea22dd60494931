-- ===== src/Memory/Valid/Claim.antt =====
-- Claim keeps the store well-formed.
use ody.Memory.Valid.Update.{commit-IsValid, frame-IsValid}
use ody.Memory.Valid.Loop.{after_now-IsValid}
use ody.Base.{
  ◌⊎◌, contains, String, ◌<◌, ◌≡◌, ◌≢◌, sym, ap, ◌∙◌, false, some, lookup, arith, nat_eq,
  lookup-insert_ne, lookup-insert_self, ℕ_discrete, some_inj, Map, List, All, true, ℤ, Member,
  mem_of_mem-select, values, mem_of_mem-sort, ◌∷◌, ◌≤◌, mem-take, All-of_mem, mem_of_mem-values,
  lookup_of_mem, [], refl,
}
use ody.Execution.{
  Uuid, nil_uuid, Time, Duration, Execution, started, is_terminal, TaskKey, pending, retry, running,
  task_key_eq,
}
use ody.Memory.{MemoryStore, commit, now, after_now, after_uuid, new_uuid}
use ody.Memory.Claim.{deliver, claim_each, is_candidate, candidates, claim, due_before, limited}
use ody.Memory.Valid.{IsConsistent, SameIdentity, IsValid}

-- A candidate that the store holds, perhaps in a later state.
pub record IsDue (m : Map Uuid Execution) (c : Execution) : Type 0 where
  pub present : Execution
  pub stored : lookup c.id m ≡ some present
  pub same : SameIdentity present c
  pub consistent : IsConsistent c
  pub attempts_left : c.attempt < c.max_attempts
  pub open_end : is_terminal c.status ≡ false

deliver-IsConsistent :
    (owner : String) (token : Uuid) (at : Time) (lease : Duration) (c : Execution)
    → token ≢ nil_uuid
    → c.attempt < c.max_attempts
    → is_terminal c.status ≡ false
    → IsConsistent c
    → IsConsistent (deliver owner token at lease c)
unfolding deliver is_terminal
deliver-IsConsistent owner token at lease c n left open_end k = ground arith

-- Delivering one candidate leaves the others due.
commit-IsDue :
    (s : MemoryStore) (c d : Execution) (owner : String) (token : Uuid) (at : Time)
    (lease : Duration)
    → IsDue s.executions c
    → IsDue s.executions d
    → IsDue (commit s c.id (deliver owner token at lease c) started "").executions d
unfolding commit deliver
commit-IsDue s c d owner token at lease dc dd = elim (ℕ_discrete c.id d.id) [
  | yes p ↦ record {
    present = deliver owner token at lease c;
    stored = rw (← p) (lookup-insert_self c.id _ s.executions);
    same =
        let q : dc.present ≡ dd.present =
          some_inj (sym dc.stored ∙ ap (λ k. lookup k s.executions) p ∙ dd.stored) in
        ground (arith, dc.same, dd.same, q);
    consistent = dd.consistent;
    attempts_left = dd.attempts_left;
    open_end = dd.open_end;
  }
  | no n ↦ record {
    present = dd.present;
    stored = lookup-insert_ne c.id d.id _ s.executions n ∙ dd.stored;
    same = dd.same;
    consistent = dd.consistent;
    attempts_left = dd.attempts_left;
    open_end = dd.open_end;
  }
]

commit-All-IsDue :
    (s : MemoryStore) (c : Execution) (ds : List Execution) (owner : String) (token : Uuid)
    (at : Time) (lease : Duration)
    → IsDue s.executions c
    → All (IsDue s.executions) ds
    → All (IsDue (commit s c.id (deliver owner token at lease c) started "").executions) ds
commit-All-IsDue s c [] owner token at lease dc a = tt
commit-All-IsDue s c (d ∷ ds) owner token at lease dc a = (
  commit-IsDue s c d owner token at lease dc a.0,
  commit-All-IsDue s c ds owner token at lease dc a.1,
)

pub claim_each-IsValid :
    (owner : String) (at : Time) (lease : Duration) (cs : List Execution) (s : MemoryStore)
    → All (IsDue s.executions) cs
    → IsValid s
    → IsValid (claim_each owner at lease cs s).1
unfolding claim_each
claim_each-IsValid owner at lease [] s a v = v
claim_each-IsValid owner at lease (c ∷ cs) s a v =
    claim_each-IsValid owner at lease cs _
      (commit-All-IsDue (after_uuid s) c cs owner (new_uuid s) at lease a.0 a.1)
      (commit-IsValid (after_uuid s) c.id a.0.present _ _ _ a.0.stored
        (unfold deliver in ground (arith, a.0.same))
        (deliver-IsConsistent owner (new_uuid s) at lease c (v.faithful.mint_ne_nil s.mints)
          a.0.attempts_left a.0.open_end a.0.consistent)
        (frame-IsValid s _ _ _ _ _ (omega arith) v))

-- What the filter of Claim has checked.
pub record WasEligible (keys : List TaskKey) (at : Time) (c : Execution) : Type 0 where
  pub accepted : contains keys (record { name = c.task_name; version = c.task_version }) ≡ true
  pub available : c.available_at ≤ at
  pub claimable :
      (c.status ≡ pending) ⊎ (c.status ≡ retry) ⊎ ((c.status ≡ running) × (c.lease_until ≤ at))
  pub attempts_left : c.attempt < c.max_attempts

pub is_candidate-WasEligible :
    (keys : List TaskKey) (at : Time) (c : Execution)
    → is_candidate keys at c ≡ true
    → WasEligible keys at c
unfolding is_candidate
is_candidate-WasEligible keys at c h = record {
  accepted = ground arith;
  available = ground arith;
  claimable = ground arith;
  attempts_left = ground arith;
}

pub mem_of_mem-candidates :
    (keys : List TaskKey) (limit : ℤ) (s : MemoryStore) {c : Execution}
    → IsValid s
    → Member c (candidates keys limit s)
    → (lookup c.id s.executions ≡ some c) × WasEligible keys (now s) c
unfolding candidates
mem_of_mem-candidates keys limit s {c} v m =
    let (inside, test) =
      mem_of_mem-select (is_candidate keys (now s)) (values s.executions)
        (mem_of_mem-sort due_before _ (mem-take (limited limit) _ m)) in
    let (id, entry) = mem_of_mem-values s.executions inside in
    let stored = lookup_of_mem id c s.executions v.distinct entry in
    (
      ap (λ k. lookup k s.executions) (v.at_key id c stored) ∙ stored,
      is_candidate-WasEligible keys (now s) c test,
    )

candidates-IsDue :
    (keys : List TaskKey) (limit : ℤ) (s : MemoryStore)
    → IsValid s
    → All (IsDue s.executions) (candidates keys limit s)
candidates-IsDue keys limit s v = All-of_mem (IsDue s.executions) _ λ c m.
    let (stored, e) = mem_of_mem-candidates keys limit s v m in
    record {
      present = c;
      stored = stored;
      same = record {
        same_id = refl;
        same_task = refl;
        same_key = refl;
        same_run = refl;
        same_node = refl;
      };
      consistent = v.consistent c.id c stored;
      attempts_left = e.attempts_left;
      open_end = open_status c e.claimable;
    }
  where
    open_status :
        (c : Execution)
        → (c.status ≡ pending)
          ⊎ (c.status ≡ retry)
          ⊎ ((c.status ≡ running) × (c.lease_until ≤ now s))
        → is_terminal c.status ≡ false
    open_status c h = unfold is_terminal in ground arith

pub claim-IsValid :
    (owner : String) (keys : List TaskKey) (limit : ℤ) (lease : Duration) (s : MemoryStore)
    → IsValid s
    → IsValid (claim owner keys limit lease s).1
unfolding claim
claim-IsValid owner keys limit lease s v =
    claim_each-IsValid owner (now s) lease (candidates keys limit s) (after_now s)
      (candidates-IsDue keys limit s v) (after_now-IsValid s v)
