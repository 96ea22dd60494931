-- ===== src/Redis/Claimed.antt =====
-- The executions that Claim (execution/redis/store.go) returns.
use ody.Redis.Loaded.{load_queues-Reaches}
use ody.Redis.Candidates.{can_claim-is_candidate}
use ody.Memory.Valid.Claim.{is_candidate-WasEligible, WasEligible}
use ody.Redis.Tries.{Reaches, watch-Reaches, Reaches-trans, stay}
use ody.Memory.Claim.{limited}
use ody.Execution.Errors.{is_not_found}
use ody.Redis.Atomic.{saving-send, watch-IsCommitted}
use ody.Redis.Watch.{watch, read_execution}
use ody.Base.{
  String, ℕ, List, ◌≡◌, ◌∷◌, some, [], true, ◌≢◌, Bool-cases, inl, inr, ◌≤◌, Option, length, none,
  All, subst, ◌==◌, Option-cases, arith, ◌-◌, false, refl, suc, ◌∙◌, ap, nat_eq, ℤ, sym, All-of_mem,
  All-mem, add_duration,
}
use ody.Execution.{
  Uuid, TaskKey, Duration, Time, Execution, Result, ok, err, err_ne_ok, ok_inj, Result-cases,
  running,
}
use ody.Redis.{
  Server, Codec, Command, Ended, execution_key, send, skip, committed, done, existing, unavailable,
}
use ody.Redis.Operations.{claim_candidate, can_claim, claiming}
use ody.Redis.Claim.{
  plan_claim, claim_result, claim_one, claim_each, claim, load_due_candidates, names_of,
}

-- A claim that sends was allowed by the record, and writes the delivered one.
claim_candidate-send :
    (codec : Codec) (event_id : Uuid) (owner : String) (token : Uuid) (accepted : List TaskKey)
    (lease : Duration) (at : Time) (item sent : Execution) (commands : List Command)
    → claim_candidate codec event_id owner token accepted lease at item ≡ send sent commands
    → (can_claim accepted at item ≡ true) × (sent ≡ (claiming owner token lease item at).item)
unfolding claim_candidate
claim_candidate-send codec event_id owner token accepted lease at item sent commands h =
    elim (Bool-cases (can_claim accepted at item)) [
      | inl y ↦ (
        y,
        saving-send codec event_id item.status at (claiming owner token lease item at) sent commands
            (rw (y, claim_candidate) at h),
      )
      | inr n ↦ absurd (skip_ne_send (rw (n, claim_candidate) at h))
    ]
  where
    skip_ne_send : skip ≢ send sent commands
    skip_ne_send h = cc

claim_result-done :
    (r : Result (Ended Execution)) (sent : Execution)
    → claim_result r ≡ ok (some sent)
    → r ≡ ok (done sent)
unfolding claim_result
claim_result-done (err e) sent h = elim (Bool-cases (is_not_found e)) [
  | inl y ↦ absurd (none_ne_some (rw (y, claim_result) at h))
  | inr n ↦ absurd (err_ne_ok (rw (n, claim_result) at h))
]
  where
    none_ne_some : ◌≢◌ {A = Result (Option Execution)} (ok none) (ok (some sent))
    none_ne_some q = cc
claim_result-done (ok unavailable) sent h = cc
claim_result-done (ok (existing id)) sent h = cc
claim_result-done (ok (done item)) sent h = cc

module _ {R : Type 0} (server : Server R) (codec : Codec) where
  -- An execution that is claimed at the instant, in a call that goes from one state to another: the
  -- record that the server held in a state of the call, in which it was due, and the committed
  -- transaction that delivered it with a token of the claim.
  pub record IsClaimed (before end : R) (fresh : Uuid → ℕ → Uuid × Uuid) (owner : String)
      (accepted : List TaskKey) (lease : Duration) (at : Time) (sent : Execution) : Type 0 where
    pub id : Uuid
    pub tries : ℕ
    pub state : R
    pub after : R
    pub value : String
    pub item : Execution
    pub commands : List Command
    pub reached : Reaches server before state
    pub read : server.get (execution_key codec id) state ≡ ok (some value)
    pub parsed : codec.parse_execution value ≡ ok item
    pub eligible : WasEligible accepted at item
    pub is_running : sent.status ≡ running
    pub is_next : sent.attempt ≡ suc item.attempt
    pub has_lease :
        (sent.lease_owner ≡ owner)
        × (sent.lease_token ≡ (fresh id tries).0)
        × (sent.lease_until ≡ add_duration at lease)
    pub delivered : sent ≡ (claiming owner (fresh id tries).0 lease item at).item
    pub executed : server.exec (execution_key codec id ∷ []) commands state ≡ (committed, after)
    pub followed : Reaches server after end

  module _ (fresh : Uuid → ℕ → Uuid × Uuid) (owner : String) (accepted : List TaskKey)
      (lease : Duration) (at : Time) where
    abbrev Claimed : R → R → Execution → Type 0
    Claimed before end sent = IsClaimed before end fresh owner accepted lease at sent

    watched : Uuid → R → Result (Ended Execution) × R
    watched id s =
        watch server (execution_key codec id ∷ []) 16
          (λ n.
            read_execution server codec id
              (plan_claim server codec fresh owner accepted lease at id n))
          s

    claim_one-Reaches :
        (id : Uuid) (s : R)
        → Reaches server s (claim_one server codec fresh owner accepted lease at id s).1
    unfolding claim_one
    claim_one-Reaches id s =
        watch-Reaches server (execution_key codec id ∷ [])
          (λ n.
            read_execution server codec id
              (plan_claim server codec fresh owner accepted lease at id n))
          16 s

    claim_one-IsClaimed :
        (id : Uuid) (s : R) (sent : Execution)
        → (claim_one server codec fresh owner accepted lease at id s).0 ≡ ok (some sent)
        → Claimed s (claim_one server codec fresh owner accepted lease at id s).1 sent
    unfolding claim_one watched claiming
    claim_one-IsClaimed id s sent h =
        let q = claim_result-done (watched id s).0 sent h in
        let c =
          watch-IsCommitted server codec id
            (λ n now. plan_claim server codec fresh owner accepted lease at id n) at 16 s sent
            (watched id s).1 (λ i. (q i, (watched id s).1)) in
        let (eligible, delivered) =
          claim_candidate-send codec (fresh id c.tries).1 owner (fresh id c.tries).0 accepted lease
            at c.item sent c.commands c.planned in
        record {
          id = id;
          tries = c.tries;
          state = c.state;
          after = (watched id s).1;
          value = c.value;
          item = c.item;
          commands = c.commands;
          reached = c.reached;
          read = c.read;
          parsed = c.parsed;
          eligible =
              is_candidate-WasEligible accepted at c.item
                (sym (can_claim-is_candidate accepted at c.item) ∙ eligible);
          is_running = ap (λ (x : Execution). x.status) delivered;
          is_next = ap (λ (x : Execution). x.attempt) delivered;
          has_lease = (
            ap (λ (x : Execution). x.lease_owner) delivered,
            ap (λ (x : Execution). x.lease_token) delivered,
            ap (λ (x : Execution). x.lease_until) delivered,
          );
          delivered = delivered;
          executed = c.executed;
          followed = stay;
        }

    Claimed-between :
        {first before end last : R} {sent : Execution}
        → Reaches server first before
        → Reaches server end last
        → Claimed before end sent
        → Claimed first last sent
    Claimed-between p q c = record {
      id = c.id;
      tries = c.tries;
      state = c.state;
      after = c.after;
      value = c.value;
      item = c.item;
      commands = c.commands;
      reached = Reaches-trans server p c.reached;
      read = c.read;
      parsed = c.parsed;
      eligible = c.eligible;
      is_running = c.is_running;
      is_next = c.is_next;
      has_lease = c.has_lease;
      delivered = c.delivered;
      executed = c.executed;
      followed = Reaches-trans server c.followed q;
    }

    -- Executions that a claim returned, no more than are left of the limit.
    abbrev pub AllClaimed : R → R → ℕ → List Execution → Type 0
    AllClaimed before end left items =
        (length items ≤ left) × All (IsClaimed before end fresh owner accepted lease at) items

    AllClaimed-after :
        (first before end : R) (left : ℕ) (items : List Execution)
        → Reaches server first before
        → AllClaimed before end left items
        → AllClaimed first end left items
    AllClaimed-after first before end left items p (b, all) = (
      b,
      All-of_mem (Claimed first end) items
          (λ c m. Claimed-between p stay (All-mem (Claimed before end) all m)),
    )

    AllClaimed-nil :
        (left : ℕ) (items : List Execution) (s s' : R)
        → ◌≡◌ {A = Result (List Execution) × R} (ok [], s) (ok items, s')
        → AllClaimed s s' left items
    AllClaimed-nil left items s s' h =
        subst (AllClaimed s s' left) (ok_inj (ap (λ x. x.0) h)) (omega arith, tt)

    AllClaimed-cons :
        (left : ℕ) (sent : Execution) (r : Result (List Execution)) (items : List Execution)
        (s t s' : R)
        → left ≢ 0
        → Claimed s t sent
        → Reaches server s t
        → Reaches server t s'
        → ((others : List Execution) → r ≡ ok others → AllClaimed t s' (left - 1) others)
        → elim r [ err e ↦ err e | ok others ↦ ok (sent ∷ others) ] ≡ ok items
        → AllClaimed s s' left items
    AllClaimed-cons left sent (err e) items s t s' n c p q rest h = absurd (err_ne_ok h)
    AllClaimed-cons left sent (ok others) items s t s' n c p q rest h =
        let (b, all) = AllClaimed-after s t s' (left - 1) others p (rest others refl) in
        subst (AllClaimed s s' left) (ok_inj h) (omega arith, (Claimed-between stay q c, all))

    claim_each-Reaches :
        (limit claimed : ℕ) (candidates : List Execution) (s : R)
        → Reaches server s
            (claim_each server codec fresh owner accepted lease at limit claimed candidates s).1
    unfolding claim_each
    claim_each-Reaches limit claimed [] s = stay
    claim_each-Reaches limit claimed (candidate ∷ rest) s =
        let one = claim_one server codec fresh owner accepted lease at candidate.id s in
        let p = claim_one-Reaches candidate.id s in
        elim (Bool-cases (claimed == limit)) [
          | inl y ↦ rw (y, claim_each) stay
          | inr n ↦ elim (Result-cases one.0) [
            | inr (e, r) ↦ rw (n, r, claim_each) p
            | inl (o, r) ↦ elim (Option-cases o) [
              | inl z ↦
                  rw (n, r, z, claim_each)
                    (Reaches-trans server p (claim_each-Reaches limit claimed rest one.1))
              | inr (sent, z) ↦
                  rw (n, r, z, claim_each)
                    (Reaches-trans server p (claim_each-Reaches limit (suc claimed) rest one.1))
            ]
          ]
        ]

    claim_each-IsClaimed :
        (limit claimed : ℕ) (candidates : List Execution) (s : R) (items : List Execution) (s' : R)
        → claim_each server codec fresh owner accepted lease at limit claimed candidates s
          ≡ (ok items, s')
        → claimed ≤ limit
        → AllClaimed s s' (limit - claimed) items
    unfolding claim_each
    claim_each-IsClaimed limit claimed [] s items s' h b =
        AllClaimed-nil (limit - claimed) items s s' h
    claim_each-IsClaimed limit claimed (candidate ∷ rest) s items s' h b =
        elim (Bool-cases (claimed == limit)) [
          | inl y ↦ AllClaimed-nil (limit - claimed) items s s' (rw (y, claim_each) at h)
          | inr n ↦ elim (Result-cases one.0) [
            | inr (e, r) ↦ absurd (err_ne_ok (ap (λ x. x.0) (rw (n, r, claim_each) at h)))
            | inl (o, r) ↦ elim (Option-cases o) [
              | inl z ↦
                  AllClaimed-after s one.1 s' (limit - claimed) items
                    (claim_one-Reaches candidate.id s)
                    (claim_each-IsClaimed limit claimed rest one.1 items s'
                      (rw (n, r, z, claim_each) at h) b)
              | inr (sent, z) ↦
                  (let ne = beq_ne claimed limit n in
                    let q = rw (n, r, z, claim_each) at h in
                    let later =
                      claim_each server codec fresh owner accepted lease at limit (suc claimed) rest
                        one.1 in
                    let end : later.1 ≡ s' = ap (λ x. x.1) q in
                    AllClaimed-cons (limit - claimed) sent later.0 items s one.1 s' (omega arith)
                      (claim_one-IsClaimed candidate.id s sent (r ∙ ap ok z))
                      (claim_one-Reaches candidate.id s)
                      (subst (Reaches server one.1) end
                        (claim_each-Reaches limit (suc claimed) rest one.1))
                      (λ others k.
                        subst (λ m. AllClaimed one.1 s' m others) (omega arith)
                          (claim_each-IsClaimed limit (suc claimed) rest one.1 others s'
                            (λ i. (k i, end i)) (omega arith)))
                      (ap (λ x. x.0) q))
            ]
          ]
        ]
      where
        one : Result (Option Execution) × R
        one = claim_one server codec fresh owner accepted lease at candidate.id s

        beq_ne : (a b : ℕ) → (a == b) ≡ false → a ≢ b
        beq_ne a b h = ground (arith, h)

  -- Claim of the Redis store returns no more than `limit` executions (one where limit is not positive),
  -- and each of them was delivered, running under a lease of the call with a token of its own and one
  -- attempt more, by a transaction that was committed between the start and the end of the call, on a
  -- record that the server held then and in which it was due at the server's time of the call: its task
  -- was asked for, it was available, had attempts left, and was pending, waiting for a retry, or running
  -- under a lease that had run out.
  pub claim-IsClaimed :
      (fresh : Uuid → ℕ → Uuid × Uuid) (owner : String) (keys : List TaskKey) (limit : ℤ)
      (lease : Duration) (s : R) (items : List Execution) (s' : R)
      → claim server codec fresh owner keys limit lease s ≡ (ok items, s')
      → (at : Time) × (server.time s ≡ ok at)
        × AllClaimed fresh owner keys lease at s s' (limited limit) items
  unfolding claim load_due_candidates
  claim-IsClaimed fresh owner keys limit lease s items s' h = elim (Result-cases (server.time s)) [
    | inr (e, t) ↦ absurd (err_ne_ok (ap (λ x. x.0) (rw (t, claim) at h)))
    | inl (at, t) ↦ elim (Result-cases (loaded at).0) [
      | inr (e, l) ↦ absurd (err_ne_ok (ap (λ x. x.0) (rw (t, l, claim) at h)))
      | inl (found, l) ↦ (
        at,
        t,
        subst (λ k. AllClaimed fresh owner keys lease at s s' k items) (omega arith)
            (AllClaimed-after fresh owner keys lease at s (loaded at).1 s' (limited limit - 0) items
              (load_queues-Reaches server codec (names_of keys []) (limited limit) at [] s)
              (claim_each-IsClaimed fresh owner keys lease at (limited limit) 0 found (loaded at).1
                items s' (rw (t, l, claim) at h) (omega arith))),
      )
    ]
  ]
    where
      loaded : Time → Result (List Execution) × R
      loaded at = load_due_candidates server codec (names_of keys []) (limited limit) at s
