-- ===== src/Tests/Calls.antt =====
-- The theorems on whole calls of the Redis store (execution/redis), at servers whose state counts the
-- transactions.
use ody.Redis.Filter.{matches_execution_filter}
use ody.Memory.Query.{page}
use ody.Redis.Create.{new_record}
use ody.Memory.Create.{new_execution}
use ody.Redis.Encoding.{stored, score, encode_run, StoredRun}
use ody.Memory.Claim.{limited, due_before}
use ody.Execution.{Uuid, Execution, ok, Time, run_failed, CreateExecution, ListFilter}
use ody.Base.{
  ℕ, ◌+◌, pos, some, ◌≡◌, sort, ◌∷◌, [], insert_sorted, suc, insert, refl, All, none, if◌then◌else◌,
  select, ◌==◌, nat_eq,
}
use ody.Tests.{request, keys}
use ody.Tests.Keyspace.{codec, unary, stored_item, first_run}
use ody.Redis.Claim.{
  claim, names_of, heads, claim_result, load_members, load_queues, load_due_candidates, claim_one,
  claim_each,
}
use ody.Redis.Claimed.{AllClaimed, claim-IsClaimed}
use ody.Redis.Reap.{
  reap_expired, reap_each, reap_one, reap_try, reap_result, is_last_expired, forget, add_run,
}
use ody.Redis.Reaped.{IsReported, reap_expired-All}
use ody.Redis.RunUpdate.{change_status}
use ody.Redis.Creation.{create_execution, create_try, create_result, find_reference}
use ody.Redis.Unique.{IsCreated, create_execution-IsCreated}
use ody.Redis.Tries.{IsWatched, watch-IsWatched}
use ody.Redis.Listed.{list_executions-page}
use ody.Redis.Watch.{watch, watch_with, read_execution, get_execution_tx}
use ody.Redis.Operations.{claiming, claim_candidate, can_claim, reap_candidate, expiring}
use ody.Redis.Transition.{saving, save_transition}
use ody.Redis.Read.{list_executions, get_members, get_execution}
use ody.Redis.{send, committed, tx_failed, Server, Codec}

-- A server that holds one execution, with the identifier 1, and commits at once.
abbrev server : Server ℕ
server = record {
  get = λ key n. ok (some "{}");
  hgetall = λ key n. ok (encode_run codec first_run);
  zrange = λ key n. ok [];
  zrevrange = λ key n. ok (unary 1 ∷ unary 1 ∷ []);
  zrange_by_score = λ key high count n. ok (unary 1 ∷ []);
  lrange = λ key n. ok [];
  time = λ n. ok 10;
  exec = λ keys commands n. (committed, suc n);
  command = λ command n. (ok tt, n);
  pipelined = λ commands n. (ok tt, suc n);
}

abbrev tokens : Uuid → ℕ → Uuid × Uuid
tokens id n = (7 + n, 40 + n)

abbrev delivered : Execution
delivered = (claiming "w" 22 (pos 50) stored_item 10).item

claims : claim server codec tokens "w" keys (pos 2) (pos 50) 0 ≡ (ok (delivered ∷ []), 1)
unfolding claim names_of heads claim_result load_members load_queues load_due_candidates claim_one
    claim_each limited score due_before sort insert_sorted insert get_execution watch read_execution
    get_execution_tx claim_candidate can_claim claiming saving save_transition new_execution
claims = refl

claim-IsClaimed_example :
    (at : Time) × (server.time 0 ≡ ok at)
    × AllClaimed server codec tokens "w" keys (pos 50) at 0 1 2 (delivered ∷ [])
unfolding limited
claim-IsClaimed_example =
    claim-IsClaimed server codec tokens "w" keys (pos 2) (pos 50) 0 (delivered ∷ []) 1 claims

-- The same execution at its last attempt, in a run.
abbrev last : Execution
last = record stored_item { attempt = 3; pipeline_run_id = some 4 }

abbrev last_codec : Codec
last_codec = record codec { parse_execution = λ s. ok last }

reaps : reap_expired server last_codec (λ id n. n) 0 ≡ (ok (4 ∷ []), 1)
unfolding reap_expired reap_each reap_one reap_try reap_result is_last_expired forget add_run
    watch_with get_execution_tx reap_candidate expiring saving save_transition new_execution score
reaps = refl

reap_expired-All_example :
    (at : Time) × (server.time 0 ≡ ok at) × All (IsReported server last_codec 0 1 at) (4 ∷ [])
reap_expired-All_example = reap_expired-All server last_codec (λ id n. n) 0 (4 ∷ []) 1 reaps

abbrev moved : StoredRun
moved = change_status run_failed "no" 10 (stored first_run)

-- A server that holds nothing, and refuses the first transaction.
abbrev empty_server : Server ℕ
empty_server = record server {
  get = λ key n. ok none;
  exec = λ keys commands n. (if n == 0 then tx_failed else committed, suc n);
}

abbrev unique_request : CreateExecution
unique_request = record request { idempotency_key = "k" }

creates :
    create_execution empty_server codec unique_request 3 (λ n. n) 0
    ≡ (ok (new_record unique_request 3 10), 2)
unfolding create_execution create_try create_result find_reference watch new_record
creates = refl

create_execution-IsCreated_example :
    (at : Time) × (empty_server.time 0 ≡ ok at)
    × IsCreated empty_server codec unique_request 3 at (new_record unique_request 3 10) 2
create_execution-IsCreated_example =
    create_execution-IsCreated empty_server codec unique_request 3 (λ n. n) 0
      (new_record unique_request 3 10) 2 creates

watch-IsWatched_example :
    IsWatched empty_server []
      (λ k n. send n [])
      16
      0
      (watch empty_server [] 16 (λ k n. send n []) 0)
watch-IsWatched_example = watch-IsWatched empty_server [] (λ k n. send n []) 16 0

-- One execution of those with the task.
abbrev filter : ListFilter
filter = record {
  task_name = "mail";
  status = none;
  pipeline_run_id = none;
  limit = pos 1;
  before = none;
}

reads : get_members server codec (unary 1 ∷ unary 1 ∷ []) 0 ≡ ok (stored_item ∷ stored_item ∷ [])
unfolding get_members get_execution new_execution
reads = refl

list_executions-page_example :
    list_executions server codec filter 0
    ≡ ok (
        page (pos 1) (
          select
            (λ item. matches_execution_filter codec item filter)
            (stored_item ∷ stored_item ∷ [])))
list_executions-page_example =
    list_executions-page server codec filter (unary 1 ∷ unary 1 ∷ []) 0
      (stored_item ∷ stored_item ∷ []) refl reads
