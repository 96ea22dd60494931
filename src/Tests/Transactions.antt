-- ===== src/Tests/Transactions.antt =====
-- The theorems on the transactions of the Redis store (execution/redis) at a running execution.
use ody.Redis.Counted.{total, stands, Step-IsExact}
use ody.Memory.Create.{new_execution}
use ody.Execution.{Execution, ok, pending, run_failed, err, message}
use ody.Memory.Lease.{is_exhausted, reap}
use ody.Memory.Claim.{is_candidate}
use ody.Memory.{now, new_memory_store}
use ody.Base.{
  lookup, ℕ, ◌≡◌, insert, true, pos, some, ◌++◌, ◌⊎◌, suc, none, refl, false, nat_eq, Option, List,
  ℤ, inr, [], ◌+◌, if◌then◌else◌, ◌==◌, string_eq,
}
use ody.Tests.Queue.{first_after}
use ody.Memory.Claim.{is_candidate, deliver}
use ody.Memory.Lease.{is_exhausted, reap}
use ody.Memory.Create.{new_execution}
use ody.Tests.{env, claimed_store, first_claimed, request, keys}
use ody.Tests.Keyspace.{codec, stored_item, invocation}
use ody.Redis.{Server, committed, Key, send, Command, status_key, skip, done, Codec}
use ody.Redis.Transition.{transition, saving, save_transition, Saved, count_field}
use ody.Redis.Operations.{
  claiming, can_claim, succeeding, claim_candidate, reap_candidate, remove_lease_index,
}
use ody.Redis.Refines.{Agrees, call_succeed, redis_plan, memory_step, redis_plan-Agrees, CanEncode}
use ody.Redis.Candidates.{Writes, claim_candidate_same, reap_candidate_same}
use ody.Redis.Create.{new_record, create_commands, purge_execution}
use ody.Redis.Created.{create_then_purge, create_commands-IsIndexed}
use ody.Redis.Indexes.{IsIndexed, score_after}
use ody.Redis.Indexed.{transaction, scores_after}
use ody.Redis.Kept.{Step-IsIndexed}
use ody.Redis.Steps.{step_claim}
use ody.Redis.Atomic.{IsFenced, transition-IsFenced}
use ody.Redis.Watch.{run, watch, read_execution, get_execution_tx}
use ody.Memory.Runs
use ody.Redis.Runs.{RunAgrees, set_run_status, set_run_status-RunAgrees}

-- A codec that cannot encode some records.
abbrev strict_codec : Codec
strict_codec = record codec {
  execution_json = λ (item : Execution).
      (if item.output == "{" then err (message "unexpected end of JSON input") else ok "{}");
}

encodes : CanEncode strict_codec 9 (call_succeed 5 "done") (now claimed_store) first_claimed
unfolding succeeding
encodes = record { execution = ("{}", refl); event = ("{}", refl) }

redis_plan-Agrees_example :
    Agrees
      (redis_plan strict_codec 9 (call_succeed 5 "done") (now claimed_store) first_claimed)
      1
      claimed_store
      (memory_step 1 (call_succeed 5 "done") claimed_store)
redis_plan-Agrees_example =
    redis_plan-Agrees strict_codec 9 1 claimed_store first_claimed first_after
      (call_succeed 5 "done") encodes

claim_candidate_same_example :
    ((is_candidate keys 8 (new_execution request 1 1) ≡ true)
      × Writes
          (claim_candidate codec 9 "w" 5 keys (pos 50) 8 (new_execution request 1 1))
          (deliver "w" 5 8 (pos 50) (new_execution request 1 1)))
    ⊎ ((is_candidate keys 8 (new_execution request 1 1) ≡ false)
        × (claim_candidate codec 9 "w" 5 keys (pos 50) 8 (new_execution request 1 1) ≡ skip))
claim_candidate_same_example =
    claim_candidate_same codec 9 "w" 5 keys (pos 50) 8 (new_execution request 1 1)
      (record { execution = ("{}", refl); event = ("{}", refl) })

reap_candidate_same_example :
    ((is_exhausted 9 stored_item ≡ true)
      × Writes (reap_candidate codec 9 9 stored_item) (reap 9 stored_item))
    ⊎ ((is_exhausted 9 stored_item ≡ false)
        × ((reap_candidate codec 9 9 stored_item ≡ skip)
            ⊎ (reap_candidate codec 9 9 stored_item ≡ remove_lease_index codec stored_item)))
reap_candidate_same_example =
    reap_candidate_same codec 9 9 stored_item
      (record { execution = ("{}", refl); event = ("{}", refl) })

-- A server that holds the running execution and commits at once; its state counts transactions.
abbrev server : Server ℕ
server = record {
  get = λ key n. ok (some "{}");
  hgetall = λ key n. ok [];
  zrange = λ key n. ok [];
  zrevrange = λ key n. ok [];
  zrange_by_score = λ key high count n. ok [];
  lrange = λ key n. ok [];
  time = λ n. ok 8;
  exec = λ keys commands n. (committed, suc n);
  command = λ command n. (ok tt, n);
  pipelined = λ commands n. (ok tt, suc n);
}

abbrev finished : Execution
finished = (succeeding "done" stored_item 8).item

succeeds :
    run server codec 1 (λ n at. transition codec n 5 (succeeding "done") at) 0
    ≡ (ok (done finished), 1)
unfolding run watch read_execution get_execution_tx transition saving save_transition succeeding
succeeds = refl

transition-IsFenced_example : IsFenced server codec 1 5 (succeeding "done") finished 1
transition-IsFenced_example =
    transition-IsFenced server codec 1 5 (λ n. n) (succeeding "done") 0 finished 1 succeeds

-- The new execution is claimed: the transaction, and the sets before it.
abbrev fresh : Execution
fresh = new_record request 1 1

abbrev fresh_scores : Key → Option ℤ
fresh_scores = scores_after codec fresh (create_commands codec fresh "{}" "{}") (λ key. none)

abbrev claimed : Saved
claimed = claiming "w" 5 (pos 50) fresh 8

abbrev claim_commands : List Command
claim_commands = transaction codec claimed.item fresh.status claimed.keep_in_queue "{}" "{}"

claims : claim_candidate codec 9 "w" 5 keys (pos 50) 8 fresh ≡ send claimed.item claim_commands
unfolding claim_candidate can_claim new_record saving save_transition claiming
claims = refl

Step-IsIndexed_example :
    IsIndexed codec claimed.item (scores_after codec fresh claim_commands fresh_scores)
Step-IsIndexed_example =
    Step-IsIndexed codec 8 fresh claimed.item claim_commands
      (claim_candidate codec 9 "w" 5 keys (pos 50) 8 fresh) fresh_scores
      (step_claim 9 "w" 5 keys (pos 50)) claims
      (create_commands-IsIndexed codec request 1 1 "{}" "{}")

-- A run in a store of its own.
run_stored :
    lookup 1 (Runs.create_pipeline_run invocation (new_memory_store env)).1.runs
    ≡ some (Runs.new_run invocation 1 1)
unfolding Runs.create_pipeline_run Runs.new_run Runs.known_run new_memory_store insert lookup
run_stored = refl

set_run_status-RunAgrees_example :
    RunAgrees
      (set_run_status codec 0 run_failed "no"
        (now (Runs.create_pipeline_run invocation (new_memory_store env)).1)
        (Runs.new_run invocation 1 1))
      1
      (Runs.create_pipeline_run invocation (new_memory_store env)).1
      (Runs.set_pipeline_run_status 1 0 run_failed "no"
        (Runs.create_pipeline_run invocation (new_memory_store env)).1)
unfolding Runs.new_run
set_run_status-RunAgrees_example =
    set_run_status-RunAgrees codec 1 0 run_failed "no"
      (Runs.create_pipeline_run invocation (new_memory_store env)).1 (Runs.new_run invocation 1 1)
      run_stored (inr no_end)
  where
    no_end : (Runs.new_run invocation 1 1).finished_at ≡ none
    no_end = refl

create_then_purge_example :
    score_after
      (status_key codec pending)
      "xx."
      (create_commands codec (new_record request 2 7) "{}" "{}"
        ++ purge_execution codec (new_record request 2 7))
      none
    ≡ none
create_then_purge_example = create_then_purge codec request 2 7 "{}" "{}" (status_key codec pending)

-- The claim moves the counter of pending executions to that of running ones.
Step-IsExact_example :
    total codec true (count_field "mail" pending) claim_commands
      + stands fresh (count_field "mail" pending)
    ≡ total codec false (count_field "mail" pending) claim_commands
      + stands claimed.item (count_field "mail" pending)
Step-IsExact_example =
    Step-IsExact codec 8 fresh claimed.item claim_commands
      (claim_candidate codec 9 "w" 5 keys (pos 50) 8 fresh) (count_field "mail" pending)
      (step_claim 9 "w" 5 keys (pos 50)) claims
