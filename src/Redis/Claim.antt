-- ===== src/Redis/Claim.antt =====
-- execution/redis/store.go: Claim, loadDueCandidates and claimCandidate. An order of sort.Slice and of a
-- map that the code leaves open is that of the library's sort here.
use ody.Redis.Operations.{claim_candidate}
use ody.Execution.Errors.{is_not_found}
use ody.Redis.Watch.{watch, read_execution}
use ody.Execution.{Uuid, TaskKey, Time, Duration, Execution, Result, ok, err, message}
use ody.Redis.Encoding.{score}
use ody.Base.{
  List, ℕ, insert, ◌*◌, String, ◌∷◌, ◌%◌, Map, ℤ, if◌then◌else◌, ◌^◌, contains, ltb, [], ◌++◌, ◌&&◌,
  some, sort, ◌==◌, values, Option, string_eq, true, none, suc, nat_eq, false,
}
use ody.Redis.{
  Server, Codec, queue_key, execution_key, zrem, unavailable, existing, done, Plan, Ended,
}
use ody.Memory.Claim.{due_before, limited}
use ody.Redis.Read.{get_execution}

-- The names of the tasks, each once.
unfoldable pub names_of : List TaskKey → List String → List String
names_of [] names = names
names_of (key ∷ keys) names =
    names_of keys (if contains names key.name then names else names ++ key.name ∷ [])

-- `int64(max(limit*8, 128))`, with the product of an int of 64 bits.
unfoldable pub heads : ℕ → ℕ
heads limit =
    let product = (limit * 8) % 2 ^ 64 in
    if ltb product (2 ^ 63) && ltb 128 product then product else 128

-- What claimCandidate makes of the end of watch.
unfoldable pub claim_result : Result (Ended Execution) → Result (Option Execution)
unfolding is_not_found
claim_result (err e) = if is_not_found e then ok none else err e
claim_result (ok unavailable) = ok none
claim_result (ok (existing id)) = err (message "redis execution reference already exists")
claim_result (ok (done item)) = ok (some item)

module _ {R : Type 0} (server : Server R) (codec : Codec) where
  -- The loop over the members of one queue.
  unfoldable pub load_members :
      String → List String → Map Uuid Execution → R → Result (Map Uuid Execution) × R
  unfolding get_execution insert
  load_members name [] found s = (ok found, s)
  load_members name (value ∷ values) found s = elim (codec.parse_uuid value) [
    | err e ↦ (err e, s)
    | ok id ↦ elim (get_execution server codec id s) [
      | ok item ↦ load_members name values (insert id item found) s
      | err e ↦ elim (is_not_found e) [
        | true ↦
            load_members name values found (server.command (zrem (queue_key codec name) value) s).1
        | false ↦ (err e, s)
      ]
    ]
  ]

  -- The loop over the queues.
  unfoldable pub load_queues :
      List String → ℕ → Time → Map Uuid Execution → R → Result (Map Uuid Execution) × R
  unfolding load_members score heads
  load_queues [] limit at found s = (ok found, s)
  load_queues (name ∷ names) limit at found s =
      elim (server.zrange_by_score (queue_key codec name) (score at) (some (heads limit)) s) [
        | err e ↦ (err e, s)
        | ok members ↦
            (let (r, s') = load_members name members found s in
              elim r [ err e ↦ (err e, s') | ok found' ↦ load_queues names limit at found' s' ])
      ]

  unfoldable pub load_due_candidates : List String → ℕ → Time → R → Result (List Execution) × R
  unfolding load_queues due_before
  load_due_candidates names limit at s =
      let (r, s') = load_queues names limit at [] s in
      (elim r [ err e ↦ err e | ok found ↦ ok (sort due_before (values found)) ], s')

  -- `fresh id n` are the token and the identifier of the event of one try of one candidate.
  module _ (fresh : Uuid → ℕ → Uuid × Uuid) (owner : String) (accepted : List TaskKey)
      (lease : Duration) (at : Time) where
    -- What is planned on the record of a candidate.
    abbrev pub plan_claim : Uuid → ℕ → Execution → Plan Execution
    plan_claim id n item =
        claim_candidate codec (fresh id n).1 owner (fresh id n).0 accepted lease at item

    -- claimCandidate, `none` where it is not won.
    unfoldable pub claim_one : Uuid → R → Result (Option Execution) × R
    unfolding watch read_execution claim_candidate claim_result
    claim_one id s =
        let (r, s') =
          watch server (execution_key codec id ∷ []) 16
            (λ n. read_execution server codec id (plan_claim id n)) s in
        (claim_result r, s')

    -- The loop over the candidates, with the number claimed.
    unfoldable pub claim_each : ℕ → ℕ → List Execution → R → Result (List Execution) × R
    unfolding claim_one
    claim_each limit claimed [] s = (ok [], s)
    claim_each limit claimed (candidate ∷ rest) s = elim (claimed == limit) [
      | true ↦ (ok [], s)
      | false ↦
          (let (r, s') = claim_one candidate.id s in
            elim r [
              | err e ↦ (err e, s')
              | ok none ↦ claim_each limit claimed rest s'
              | ok (some item) ↦
                  (let (r', s'') = claim_each limit (suc claimed) rest s' in
                    (elim r' [ err e ↦ err e | ok items ↦ ok (item ∷ items) ], s''))
            ])
    ]

  unfoldable pub claim :
      (Uuid → ℕ → Uuid × Uuid)
      → String
      → List TaskKey
      → ℤ
      → Duration
      → R
      → Result (List Execution) × R
  unfolding names_of load_due_candidates claim_each limited
  claim fresh owner keys limit lease s = elim (server.time s) [
    | err e ↦ (err e, s)
    | ok at ↦
        (let (r, s') = load_due_candidates (names_of keys []) (limited limit) at s in
          elim r [
            | err e ↦ (err e, s')
            | ok candidates ↦ claim_each fresh owner keys lease at (limited limit) 0 candidates s'
          ])
  ]
