-- ===== src/Tests/Queue.antt =====
-- The theorems on `MemoryStore` (execution/memory.go) at concrete stores.
use ody.Memory.Control.{restart_execution}
use ody.Monitoring.Restart.{memory_service, is_delegated, restart_task_delegates}
use ody.Memory.{now, put_execution, append_event, commit, new_memory_store}
use ody.Memory.Create.{create_execution, known_key, known_node, insert_execution, new_execution}
use ody.Memory.Valid.Reachable.{
  call_claim, call_succeed, run_calls, step, reachable-IsValid, Call, call_create,
}
use ody.Memory.Valid.{IsValid, Minted}
use ody.Memory.Valid.Claim.{WasEligible}
use ody.Memory.Transition.{Edge}
use ody.Memory.Transition.Machine.{step_moves}
use ody.Memory.Delivery.{Apart}
use ody.Memory.Delivery.Claimed.{IsClaimed, claim_sound, claim_complete, claim_exclusive}
use ody.Memory.Delivery.Fencing.{claim_fences}
use ody.Memory.Lease.{heartbeat, succeed, retry_execution, fail}
use ody.Memory.Claim.{
  claim, claim_each, candidates, is_candidate, is_claimable, due_before, limited, deliver,
}
use ody.Execution.{Execution, err, lease_lost, CreateExecution}
use ody.Base.{
  sort, insert_sorted, find_or, insert, lookup, ◌≡◌, pos, arith, ◌∷◌, All, Member, ◌≢◌, some, [],
  inl, ◌⊎◌, Pairwise, subst, refl, length, sym, nat_eq, ◌≤◌, here, ◌<◌, List, none,
}
use ody.Memory.Create.Idempotent.{create_execution_idem}
use ody.Monitoring.{restart_task}
use ody.Monitoring.Restart.{memory_service, is_delegated, restart_task_delegates}
use ody.Tests.{
  env, env-IsFaithful, keys, waiting, waiting-IsValid, first_item, first_claimed, second_claimed,
  claimed_store, expired_store, expired_store-IsValid, redelivered, request,
}

first_stored : lookup 1 waiting.executions ≡ some first_item
unfolding claim claim_each candidates is_candidate is_claimable due_before limited deliver run_calls
    step create_execution known_key known_node insert_execution new_execution put_execution
    append_event new_memory_store sort insert_sorted find_or insert lookup commit
first_stored = refl

pub first_after : lookup 1 claimed_store.executions ≡ some first_claimed
unfolding claim claim_each candidates is_candidate is_claimable due_before limited deliver run_calls
    step create_execution known_key known_node insert_execution new_execution put_execution
    append_event new_memory_store sort insert_sorted find_or insert lookup commit
first_after = refl

claims_first : (claim "a" keys (pos 1) (pos 50) waiting).0 ≡ first_claimed ∷ []
unfolding claim claim_each candidates is_candidate is_claimable due_before limited deliver run_calls
    step create_execution known_key known_node insert_execution new_execution put_execution
    append_event new_memory_store sort insert_sorted find_or insert lookup commit
claims_first = refl

claims_second : (claim "b" keys (pos 1) (pos 50) claimed_store).0 ≡ second_claimed ∷ []
unfolding claim claim_each candidates is_candidate is_claimable due_before limited deliver run_calls
    step create_execution known_key known_node insert_execution new_execution put_execution
    append_event new_memory_store sort insert_sorted find_or insert lookup commit
claims_second = refl

later_now : now claimed_store ≡ 7
unfolding claim claim_each candidates is_candidate is_claimable due_before limited deliver run_calls
    step create_execution known_key known_node insert_execution new_execution put_execution
    append_event new_memory_store sort insert_sorted find_or insert lookup commit
later_now = refl

claims_again : (claim "b" keys (pos 1) (pos 50) expired_store).0 ≡ redelivered ∷ []
unfolding claim claim_each candidates is_candidate is_claimable due_before limited deliver run_calls
    step create_execution known_key known_node insert_execution new_execution put_execution
    append_event new_memory_store sort insert_sorted find_or insert lookup commit
claims_again = refl

first_lease : first_claimed.lease_until ≡ 55
unfolding claim claim_each candidates is_candidate is_claimable due_before limited deliver run_calls
    step create_execution known_key known_node insert_execution new_execution put_execution
    append_event new_memory_store sort insert_sorted find_or insert lookup commit
first_lease = refl

old-Minted : Minted expired_store 3
unfolding claim claim_each candidates is_candidate is_claimable due_before limited deliver run_calls
    step create_execution known_key known_node insert_execution new_execution put_execution
    append_event new_memory_store sort insert_sorted find_or insert lookup commit
old-Minted = (2, omega arith, refl)

first_eligible : WasEligible keys (now waiting) first_item
unfolding claim claim_each candidates is_candidate is_claimable due_before limited deliver run_calls
    step create_execution known_key known_node insert_execution new_execution put_execution
    append_event new_memory_store sort insert_sorted find_or insert lookup commit
first_eligible = record {
  accepted = refl;
  available = omega arith;
  claimable = inl refl;
  attempts_left = omega arith;
}

abbrev finished_calls : List Call
finished_calls =
    call_create request ∷ call_claim "a" keys (pos 1) (pos 50) ∷ call_succeed 1 3 "done" ∷ []

reachable-IsValid_example : IsValid (run_calls finished_calls (new_memory_store env))
reachable-IsValid_example = reachable-IsValid env finished_calls env-IsFaithful

claim_step :
    lookup 1 (step (call_claim "a" keys (pos 1) (pos 50)) waiting).executions ≡ some first_claimed
unfolding run_calls
claim_step = first_after

step_moves_example :
    (first_claimed ≡ first_item)
    ⊎ Edge first_item first_claimed (call_claim "a" keys (pos 1) (pos 50))
step_moves_example =
    step_moves (call_claim "a" keys (pos 1) (pos 50)) waiting 1 first_item first_claimed
      waiting-IsValid first_stored claim_step

claim_sound_example :
    All
      (IsClaimed "a" keys (pos 50) waiting (claim "a" keys (pos 1) (pos 50) waiting).1)
      (claim "a" keys (pos 1) (pos 50) waiting).0
    × Pairwise Apart (claim "a" keys (pos 1) (pos 50) waiting).0
    × (length (claim "a" keys (pos 1) (pos 50) waiting).0 ≤ limited (pos 1))
claim_sound_example = claim_sound "a" keys (pos 1) (pos 50) waiting waiting-IsValid

claim_complete_example :
    ((item : Execution) × Member item (claim "a" keys (pos 1) (pos 50) waiting).0 × (item.id ≡ 1))
    ⊎ (length (claim "a" keys (pos 1) (pos 50) waiting).0 ≡ limited (pos 1))
claim_complete_example =
    claim_complete "a" keys (pos 1) (pos 50) waiting waiting-IsValid 1 first_item first_stored
      first_eligible

after_first : (claim "a" keys (pos 1) (pos 50) waiting).1 ≡ claimed_store
unfolding run_calls step
after_first = refl

claim_exclusive_example : first_claimed.id ≢ second_claimed.id
claim_exclusive_example =
    claim_exclusive "a" "b" keys keys (pos 1) (pos 1) (pos 50) (pos 50) waiting first_claimed
      second_claimed waiting-IsValid (subst (Member first_claimed) (sym claims_first) (here refl))
      (subst (λ t. Member second_claimed (claim "b" keys (pos 1) (pos 50) t).0) (sym after_first)
        (subst (Member second_claimed) (sym claims_second) (here refl)))
      (subst (λ t. now t < first_claimed.lease_until) (sym after_first)
        (omega (arith, later_now, first_lease)))

claim_fences_example :
    (let t = (claim "b" keys (pos 1) (pos 50) expired_store).1 in
      (heartbeat 1 3 (pos 9) t ≡ (err lease_lost, t))
      × (succeed 1 3 "late" t ≡ (err lease_lost, t))
      × (retry_execution 1 3 "boom" (pos 4) t ≡ (err lease_lost, t))
      × (fail 1 3 "boom" t ≡ (err lease_lost, t)))
unfolding claim claim_each candidates is_candidate is_claimable due_before limited deliver run_calls
    step create_execution known_key known_node insert_execution new_execution put_execution
    append_event new_memory_store sort insert_sorted find_or insert lookup commit
claim_fences_example =
    claim_fences "b" keys (pos 1) (pos 50) (pos 9) (pos 4) "late" "boom" expired_store redelivered 3
      expired_store-IsValid (subst (Member redelivered) (sym claims_again) (here refl)) old-Minted

abbrev keyed_request : CreateExecution
keyed_request = record request { idempotency_key = "order 7" }

has_key : keyed_request.idempotency_key ≢ ""
has_key p = cc p

create_execution_idem_example :
    create_execution keyed_request (create_execution keyed_request waiting).1
    ≡ create_execution keyed_request waiting
create_execution_idem_example = create_execution_idem keyed_request waiting has_key

-- A service without a restarter, at an execution that belongs to no pipeline.
restart_task_delegates_example :
    restart_task (memory_service none) 1 waiting
    ≡ elim (is_delegated none (lookup 1 waiting.executions)) [
      | none ↦ restart_execution 1 0 waiting
      | some restart ↦ restart 1 waiting
    ]
restart_task_delegates_example = restart_task_delegates none 1 waiting
