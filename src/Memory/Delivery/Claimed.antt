-- ===== src/Memory/Delivery/Claimed.antt =====
-- Claim (execution/memory.go): the executions that it returns, against what may be claimed.
use ody.Base.{
  ◌≡◌, some, length, ◌∷◌, All, Pairwise, true, here, arith, ◌≤◌, ◌⊎◌, nat_eq, ◌∙◌, length-take-le,
  ap, sort, sym, select, there, values, [], suc, refl, mem-sort, ◌<◌, ℕ, mem-select, ◌≢◌,
  mem-values, All-mem, mem_of_lookup, Bool-cases, some_inj, leb, inl, subst, take_all, leb→le, inr,
  length-take_full,
}
use ody.Memory.{MemoryStore, now, after_now, String, List, lookup, Map, Env}
use ody.Memory.Claim.{claim, candidates, is_candidate, due_before, limited, deliver}
use ody.Memory.Valid.{IsValid}
use ody.Memory.Valid.Claim.{WasEligible, mem_of_mem-candidates, claim-IsValid}
use ody.Memory.Delivery.{
  Apart, Delivered, candidates-Apart, claim_each-Delivered, Member, ℤ, MintedSince,
}
use ody.Execution.{Uuid, Time, Duration, TaskKey, Execution, running}

-- `item` is the delivery of an execution that was stored and eligible, and is what is stored now.
pub record IsClaimed (owner : String) (keys : List TaskKey) (lease : Duration) (s t : MemoryStore)
    (item : Execution) : Type 0 where
  pub before : Execution
  pub token : Uuid
  pub fresh : MintedSince s.env s.mints token
  pub stored_before : lookup item.id s.executions ≡ some before
  pub eligible : WasEligible keys (now s) before
  pub delivered : item ≡ deliver owner token (now s) lease before
  pub stored_after : lookup item.id t.executions ≡ some item

module _ (owner : String) (keys : List TaskKey) (lease : Duration) (s t : MemoryStore) where
  Delivered-All :
      (cs items : List Execution)
      → Delivered s.env s.mints owner (now s) lease t.executions cs items
      → ((c : Execution)
          → Member c cs
          → (lookup c.id s.executions ≡ some c) × WasEligible keys (now s) c)
      → All (IsClaimed owner keys lease s t) items
  Delivered-All [] [] d k = tt
  Delivered-All [] (item ∷ items) d k = absurd d
  Delivered-All (c ∷ cs) [] d k = absurd d
  Delivered-All (c ∷ cs) (item ∷ items) d k = (
    record {
      before = c;
      token = d.0.token;
      fresh = d.0.fresh;
      stored_before = ap (λ i. lookup i s.executions) d.0.same_id ∙ (k c (here refl)).0;
      eligible = (k c (here refl)).1;
      delivered = d.0.delivered;
      stored_after = d.0.stored;
    },
    Delivered-All cs items d.1 (λ b m. k b (there m)),
  )

module _ (env : Env) (floor : ℕ) (owner : String) (at : Time) (lease : Duration)
    (after : Map Uuid Execution) where
  length-Delivered :
      (cs items : List Execution)
      → Delivered env floor owner at lease after cs items
      → length items ≡ length cs
  length-Delivered [] [] d = refl
  length-Delivered [] (item ∷ items) d = absurd d
  length-Delivered (c ∷ cs) [] d = absurd d
  length-Delivered (c ∷ cs) (item ∷ items) d = ap suc (length-Delivered cs items d.1)

  Delivered-mem :
      (cs items : List Execution) {c : Execution}
      → Delivered env floor owner at lease after cs items
      → Member c cs
      → (item : Execution) × Member item items × (item.id ≡ c.id)
  Delivered-mem [] items d m = elim m [ ]
  Delivered-mem (b ∷ cs) [] d m = absurd d
  Delivered-mem (b ∷ cs) (item ∷ items) d (here e) =
      (item, here refl, d.0.same_id ∙ ap (λ (x : Execution). x.id) (sym e))
  Delivered-mem (b ∷ cs) (item ∷ items) d (there m) =
      let (i, n, p) = Delivered-mem cs items d.1 m in (i, there n, p)

  Delivered-ne :
      (a c : Execution) (cs items : List Execution)
      → a.id ≡ c.id
      → Delivered env floor owner at lease after cs items
      → All (Apart c) cs
      → All (Apart a) items
  Delivered-ne a c [] [] p d h = tt
  Delivered-ne a c [] (item ∷ items) p d h = absurd d
  Delivered-ne a c (b ∷ cs) [] p d h = absurd d
  Delivered-ne a c (b ∷ cs) (item ∷ items) p d h =
      (λ q. h.0 (sym p ∙ q ∙ d.0.same_id), Delivered-ne a c cs items p d.1 h.1)

  Delivered-Apart :
      (cs items : List Execution)
      → Delivered env floor owner at lease after cs items
      → Pairwise Apart cs
      → Pairwise Apart items
  Delivered-Apart [] [] d h = tt
  Delivered-Apart [] (item ∷ items) d h = absurd d
  Delivered-Apart (c ∷ cs) [] d h = absurd d
  Delivered-Apart (c ∷ cs) (item ∷ items) d h =
      (Delivered-ne item c cs items d.0.same_id d.1 h.0, Delivered-Apart cs items d.1 h.1)

WasEligible-is_candidate :
    (keys : List TaskKey) (at : Time) (e : Execution)
    → WasEligible keys at e
    → is_candidate keys at e ≡ true
unfolding is_candidate
WasEligible-is_candidate keys at e w =
    ground (arith, w.accepted, w.available, w.claimable, w.attempts_left)

module _ (owner : String) (keys : List TaskKey) (limit : ℤ) (lease : Duration) (s : MemoryStore)
    (v : IsValid s) where
  abbrev items : List Execution
  items = (claim owner keys limit lease s).0

  claim-Delivered :
      Delivered s.env s.mints owner
        (now s)
        lease
        (claim owner keys limit lease s).1.executions
        (candidates keys limit s)
        items
  unfolding claim
  claim-Delivered =
      claim_each-Delivered owner (now s) lease (candidates keys limit s) (after_now s) s.mints
        (omega arith) (candidates-Apart keys limit s v)

  -- In a well-formed store, Claim returns no more than the limit allows, deliveries of executions that are stored under different identifiers and are
  -- eligible: of an accepted key, available, pending or due for a retry or under a lease that has
  -- run out, and with an attempt left. Each is stored as it is returned.
  pub claim_sound :
      All (IsClaimed owner keys lease s (claim owner keys limit lease s).1) items
      × Pairwise Apart items
      × (length items ≤ limited limit)
  claim_sound = (
    Delivered-All owner keys lease s _ (candidates keys limit s) items claim-Delivered
        (λ c m. mem_of_mem-candidates keys limit s v m),
    Delivered-Apart s.env s.mints owner (now s) lease _ (candidates keys limit s) items
        claim-Delivered (candidates-Apart keys limit s v),
    unfold candidates in
        omega (
          arith,
          length-Delivered s.env s.mints owner (now s) lease _ (candidates keys limit s) items
              claim-Delivered,
          length-take-le (limited limit)
              (sort due_before (select (is_candidate keys (now s)) (values s.executions))),
        ),
  )

  -- In a well-formed store, Claim leaves an eligible execution out only when the limit is used up.
  pub claim_complete :
      (id : Uuid) (e : Execution)
      → lookup id s.executions ≡ some e
      → WasEligible keys (now s) e
      → ((item : Execution) × Member item items × (item.id ≡ id)) ⊎ (length items ≡ limited limit)
  claim_complete id e stored w = elim (Bool-cases (leb (length pool) (limited limit))) [
    | inl t ↦
        (let inside : Member e (candidates keys limit s) =
            unfold candidates in
            subst (Member e) (sym (take_all (limited limit) pool (leb→le _ _ t))) in_pool in
          let (item, m, p) =
            Delivered-mem s.env s.mints owner (now s) lease _ (candidates keys limit s) items
              claim-Delivered inside in
          inl (item, m, p ∙ v.at_key id e stored))
    | inr f ↦ inr (
        length-Delivered s.env s.mints owner (now s) lease _ (candidates keys limit s) items
          claim-Delivered
        ∙ (unfold candidates in length-take_full (limited limit) pool (ground arith)))
  ]
    where
      pool : List Execution
      pool = sort due_before (select (is_candidate keys (now s)) (values s.executions))

      in_pool : Member e pool
      in_pool = mem-sort due_before (
          mem-select (is_candidate keys (now s))
            (mem-values (mem_of_lookup id e s.executions stored))
            (WasEligible-is_candidate keys (now s) e w))

-- In a well-formed store, what one call of Claim has delivered, the next does not deliver while the lease lasts, whoever
-- asks: `at` is the instant that the second call reads, and the lease ends after it.
pub claim_exclusive :
    (owner other : String) (keys others : List TaskKey) (limit bound : ℤ) (lease term : Duration)
    (s : MemoryStore) (i j : Execution)
    → IsValid s
    → Member i (claim owner keys limit lease s).0
    → Member j (claim other others bound term (claim owner keys limit lease s).1).0
    → now (claim owner keys limit lease s).1 < i.lease_until
    → i.id ≢ j.id
claim_exclusive owner other keys others limit bound lease term s i j v mi mj held p =
    absurd (ground (arith, c, q, second.eligible.claimable, first.delivered, held))
  where
    t : MemoryStore
    t = (claim owner keys limit lease s).1

    first : IsClaimed owner keys lease s t i
    first = All-mem (IsClaimed owner keys lease s t) (claim_sound owner keys limit lease s v).0 mi

    second : IsClaimed other others term t (claim other others bound term t).1 j
    second =
        All-mem (IsClaimed other others term t (claim other others bound term t).1)
          (claim_sound other others bound term t (claim-IsValid owner keys limit lease s v)).0 mj

    q : i ≡ second.before
    q = some_inj (sym first.stored_after ∙ ap (λ k. lookup k t.executions) p ∙ second.stored_before)

    c : (i.status ≡ running)
    c = unfold deliver in ap (λ (x : Execution). x.status) first.delivered
