-- ===== src/Memory/Delivery.antt =====
-- Claim (execution/memory.go): which executions it delivers, and that no two deliveries overlap.
pub mod Claimed
pub mod Fencing
use ody.Base.{
  Distinct, Map, ℤ, All, Pairwise, Member, Pairwise-take, ◌≡◌, lookup, ◌∷◌, values, sort-Pairwise,
  some, ◌∙◌, All-of_mem, mem_of_mem-values, sym, lookup-insert_ne, All-mem, nat_eq, ne_of_mem,
  Pairwise-select, lookup-insert_self, [], here, lookup_of_mem, refl, there, ℕ, ◌≤◌, arith,
}
use ody.Memory.{MemoryStore, now, new_uuid, ◌≢◌, List, String, Env}
use ody.Memory.Claim.{deliver, claim_each, candidates, is_candidate, due_before, limited}
use ody.Memory.Valid.{IsValid}
use ody.Execution.{Uuid, Time, Duration, TaskKey, Execution}

abbrev pub Apart : Execution → Execution → Type 0
Apart a b = a.id ≢ b.id

values-Apart :
    (m : Map Uuid Execution)
    → Distinct m
    → ((id : Uuid) (e : Execution) → Member (id, e) m → e.id ≡ id)
    → Pairwise Apart (values m)
unfolding Distinct
values-Apart [] d k = tt
values-Apart ((id, e) ∷ m) d k = (
  All-of_mem (Apart e) (values m) (λ b n.
      let (j, entry) = mem_of_mem-values m n in
      λ p. ne_of_mem id j e b m d entry (sym (k id e (here refl)) ∙ p ∙ k j b (there entry))),
  values-Apart m d.1 (λ j b n. k j b (there n)),
)

pub candidates-Apart :
    (keys : List TaskKey) (limit : ℤ) (s : MemoryStore)
    → IsValid s
    → Pairwise Apart (candidates keys limit s)
unfolding candidates
candidates-Apart keys limit s v = Pairwise-take Apart (limited limit) _ (
    sort-Pairwise due_before Apart (λ a b n p. n (sym p)) _
      (Pairwise-select Apart (is_candidate keys (now s)) _ (
        values-Apart s.executions v.distinct
          (λ id e n. v.at_key id e (lookup_of_mem id e s.executions v.distinct n)))))

-- `uuid.New` returned the identifier after its first `floor` results.
abbrev pub MintedSince : Env → ℕ → Uuid → Type 0
MintedSince env floor id = (k : ℕ) × (floor ≤ k) × (env.mint k ≡ id)

-- One delivery: the candidate `before` became `item`, which is what the store `after` holds.
pub record IsDelivered (env : Env) (floor : ℕ) (owner : String) (at : Time) (lease : Duration)
    (before : Execution) (after : Map Uuid Execution) (item : Execution) : Type 0 where
  pub token : Uuid
  pub fresh : MintedSince env floor token
  pub same_id : item.id ≡ before.id
  pub delivered : item ≡ deliver owner token at lease before
  pub stored : lookup item.id after ≡ some item

-- Candidate by candidate.
abbrev pub Delivered :
    Env
    → ℕ
    → String
    → Time
    → Duration
    → Map Uuid Execution
    → List Execution
    → List Execution
    → Type 0
Delivered env floor owner at lease after [] [] = Unit
Delivered env floor owner at lease after [] (item ∷ items) = ⊥
Delivered env floor owner at lease after (c ∷ cs) [] = ⊥
Delivered env floor owner at lease after (c ∷ cs) (item ∷ items) =
    IsDelivered env floor owner at lease c after item
    × Delivered env floor owner at lease after cs items

-- Later deliveries leave the entries of other candidates alone.
claim_each-lookup_ne :
    (owner : String) (at : Time) (lease : Duration) (cs : List Execution) (s : MemoryStore)
    (id : Uuid)
    → All (λ c. c.id ≢ id) cs
    → lookup id (claim_each owner at lease cs s).1.executions ≡ lookup id s.executions
unfolding claim_each
claim_each-lookup_ne owner at lease [] s id a = refl
claim_each-lookup_ne owner at lease (c ∷ cs) s id a =
    claim_each-lookup_ne owner at lease cs _ id a.1 ∙ lookup-insert_ne c.id id _ s.executions a.0

pub claim_each-Delivered :
    (owner : String) (at : Time) (lease : Duration) (cs : List Execution) (s : MemoryStore)
    (floor : ℕ)
    → floor ≤ s.mints
    → Pairwise Apart cs
    → Delivered s.env floor owner at lease
        (claim_each owner at lease cs s).1.executions
        cs
        (claim_each owner at lease cs s).0
unfolding claim_each
claim_each-Delivered owner at lease [] s floor h p = tt
claim_each-Delivered owner at lease (c ∷ cs) s floor h p = (
  record {
    token = new_uuid s;
    fresh = (s.mints, h, refl);
    same_id = refl;
    delivered = refl;
    stored =
        claim_each-lookup_ne owner at lease cs _ c.id
          (All-of_mem (λ d. d.id ≢ c.id) cs (λ d m q. All-mem (Apart c) p.0 m (sym q)))
        ∙ lookup-insert_self c.id _ s.executions;
  },
  claim_each-Delivered owner at lease cs _ floor (omega arith) p.1,
)
