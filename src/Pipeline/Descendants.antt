-- ===== src/Pipeline/Descendants.antt =====
-- `descendantKeys` (pipeline/engine.go) finds exactly the nodes that depend on the root.
use ody.Execution.{ok}
use ody.Base.{
  String, List, Member, ◌≡◌, ◌∷◌, true, ◌⊎◌, here, Bool-cases, arith, inl, inr, subst, contains,
  contains_of_mem, sym, mem_of_contains, there, ◌==◌, [], string_eq, refl, ◌∙◌, All, ◌≢◌, ap,
  All-mem, eq_iff, ◌↔◌, false,
}
use ody.Pipeline.{NodeDefinition, Definition, compile, touches, descendants_from, descendant_keys}
use ody.Pipeline.Order.{Ordered, compile-Ordered}

-- The node of this key depends on the root, directly or through other nodes.
pub data DependsOn (root : String) (nodes : List NodeDefinition) : String → Type 0 where
  direct :
      {node : NodeDefinition}
      → Member node nodes
      → Member root node.dependencies
      → DependsOn root nodes node.key
  onward :
      {node : NodeDefinition} {k : String}
      → Member node nodes
      → DependsOn root nodes k
      → Member k node.dependencies
      → DependsOn root nodes node.key

touches-mem :
    (affected ds : List String)
    → touches affected ds ≡ true
    → (d : String) × Member d ds × Member d affected
unfolding touches
touches-mem affected [] h = absurd (cc)
touches-mem affected (d ∷ ds) h = elim (Bool-cases (contains affected d)) [
  | inl t ↦ (d, here refl, mem_of_contains affected d t)
  | inr f ↦ (let (k, m, n) = touches-mem affected ds (ground arith) in (k, there m, n))
]

touches_of_mem :
    {affected : List String} {d : String} {ds : List String}
    → Member d ds
    → Member d affected
    → touches affected ds ≡ true
unfolding touches
touches_of_mem {affected} (here e) m =
    ground (arith, contains_of_mem (subst (λ k. Member k affected) e m))
touches_of_mem (there n) m = ground (arith, touches_of_mem n m)

module _ (root : String) (nodes : List NodeDefinition) where
  -- Every affected key is the root or depends on it.
  abbrev Sound : List String → Type 0
  Sound affected = (k : String) → Member k affected → (k ≡ root) ⊎ DependsOn root nodes k

  touches-DependsOn :
      (affected : List String) (node : NodeDefinition)
      → Member node nodes
      → Sound affected
      → touches affected node.dependencies ≡ true
      → DependsOn root nodes node.key
  touches-DependsOn affected node inside sound t =
      let (d, m, n) = touches-mem affected node.dependencies t in
      elim (sound d n) [
        | inl e ↦ direct inside (subst (λ k. Member k node.dependencies) e m)
        | inr r ↦ onward inside r m
      ]

  Sound-cons :
      (affected : List String) (key : String)
      → DependsOn root nodes key
      → Sound affected
      → Sound (key ∷ affected)
  Sound-cons affected key r sound k (here e) = inr (subst (DependsOn root nodes) (sym e) r)
  Sound-cons affected key r sound k (there m) = sound k m

  descendants_from-Sound :
      (affected : List String) (rest : List NodeDefinition)
      → Sound affected
      → ((n : NodeDefinition) → Member n rest → Member n nodes)
      → (k : String) → Member k (descendants_from root affected rest)
      → DependsOn root nodes k
  unfolding descendants_from
  descendants_from-Sound affected [] sound sub k m = elim m [ ]
  descendants_from-Sound affected (node ∷ rest) sound sub k m =
      elim (Bool-cases (node.key == root)) [
        | inl t ↦ descendants_from-Sound affected rest sound (λ n i. sub n (there i)) k (rw t at m)
        | inr f ↦ elim (Bool-cases (touches affected node.dependencies)) [
          | inr u ↦
              descendants_from-Sound affected rest sound (λ n i. sub n (there i)) k (rw (f, u) at m)
          | inl t ↦
              (let r = touches-DependsOn affected node (sub node (here refl)) sound t in
                found r (rw (f, t) at m) (
                  descendants_from-Sound (node.key ∷ affected) rest
                    (Sound-cons affected node.key r sound) (λ n i. sub n (there i)) k))
        ]
      ]
    where
      found :
          {later : List String}
          → DependsOn root nodes node.key
          → Member k (node.key ∷ later)
          → (Member k later → DependsOn root nodes k)
          → DependsOn root nodes k
      found r (here e) ih = subst (DependsOn root nodes) (sym e) r
      found r (there i) ih = ih i

-- A key names one node.
key_unseen :
    {n : NodeDefinition} (seen : List String) {rest : List NodeDefinition}
    → Ordered seen rest
    → Member n rest
    → ¬ Member n.key seen
key_unseen seen o (here e) m = o.1 (subst (λ (x : NodeDefinition). Member x.key seen) e m)
key_unseen seen o (there {x = x} i) m = key_unseen (x.key ∷ seen) o.3 i (there m)

key_unique :
    (seen : List String) {a b : NodeDefinition} (rest : List NodeDefinition)
    → Ordered seen rest
    → Member a rest
    → Member b rest
    → a.key ≡ b.key
    → a ≡ b
key_unique seen [] o i j p = elim i [ ]
key_unique seen (n ∷ rest) o (here e) (here f) p = e ∙ sym f
key_unique seen {a} {b} (n ∷ rest) o (here e) (there j) p =
    absurd (key_unseen (n.key ∷ seen) o.3 j (here (sym p ∙ ap (λ (x : NodeDefinition). x.key) e)))
key_unique seen (n ∷ rest) o (there i) (here f) p =
    absurd (key_unseen (n.key ∷ seen) o.3 i (here (p ∙ ap (λ (x : NodeDefinition). x.key) f)))
key_unique seen (n ∷ rest) o (there i) (there j) p = key_unique (n.key ∷ seen) rest o.3 i j p

module _ (root : String) (nodes : List NodeDefinition) (ordered : Ordered [] nodes) where
  -- A dependency through which the node of this key depends on the root.
  last_step :
      {k : String}
      → DependsOn root nodes k
      → (n : NodeDefinition) × Member n nodes
        × (n.key ≡ k)
        × ((d : String) × Member d n.dependencies × ((d ≡ root) ⊎ DependsOn root nodes d))
  last_step (direct {node = n} i m) = (n, i, refl, (root, m, inl refl))
  last_step (onward {node = n} {k = d} i r m) = (n, i, refl, (d, m, inr r))

  -- Every processed key that depends on the root is affected, and so is the root.
  record Complete (seen affected : List String) : Type 0 where
    has_root : Member root affected
    has_all : (k : String) → Member k seen → DependsOn root nodes k → Member k affected

  must_touch :
      (seen affected : List String) (node : NodeDefinition)
      → Member node nodes
      → All (λ d. Member d seen) node.dependencies
      → Complete seen affected
      → DependsOn root nodes node.key
      → touches affected node.dependencies ≡ true
  must_touch seen affected node inside known c r =
      let (n, i, p, step) = last_step r in
      let (d, m, how) = step in
      let m' : Member d node.dependencies =
        subst (λ (x : NodeDefinition). Member d x.dependencies)
          (key_unique [] nodes ordered i inside p) m in
      touches_of_mem m' (elim how [
        | inl e ↦ subst (λ k. Member k affected) (sym e) c.has_root
        | inr s ↦ c.has_all d (All-mem (λ k. Member k seen) known m') s
      ])

  descendants_from-Complete :
      (seen affected : List String) (rest : List NodeDefinition)
      → Ordered seen rest
      → ((n : NodeDefinition) → Member n rest → Member n nodes)
      → Complete seen affected
      → (n : NodeDefinition) → Member n rest
      → DependsOn root nodes n.key
      → n.key ≢ root
      → Member n.key (descendants_from root affected rest)
  unfolding descendants_from
  descendants_from-Complete seen affected [] o sub c n i r ne = elim i [ ]
  descendants_from-Complete seen affected (node ∷ rest) o sub c n i r ne =
      elim (Bool-cases (node.key == root)) [
        | inl t ↦
            (let at_root = (eq_iff node.key root).0 t in
              rw t (
                later affected
                  (λ c' j.
                    descendants_from-Complete (node.key ∷ seen) affected rest o.3
                      (λ m k. sub m (there k)) c' n j r ne)
                  (record {
                    has_root = c.has_root;
                    has_all = λ k m s. elim m [
                      | here e ↦ subst (λ j. Member j affected) (sym (e ∙ at_root)) c.has_root
                      | there m' ↦ c.has_all k m' s
                    ];
                  })
                  i (λ e. ne (ap (λ (x : NodeDefinition). x.key) e ∙ at_root))))
        | inr f ↦ elim (Bool-cases (touches affected node.dependencies)) [
          | inl t ↦
              rw (f, t)
                (taken
                  (λ c' j.
                    descendants_from-Complete (node.key ∷ seen) (node.key ∷ affected) rest o.3
                      (λ m k. sub m (there k)) c' n j r ne)
                  i
                  (record {
                    has_root = there c.has_root;
                    has_all =
                        λ k m s. elim m [ here e ↦ here e | there m' ↦ there (c.has_all k m' s) ];
                  }))
          | inr u ↦
              rw (f, u)
                (later affected
                  (λ c' j.
                    descendants_from-Complete (node.key ∷ seen) affected rest o.3
                      (λ m k. sub m (there k)) c' n j r ne)
                  (record {
                    has_root = c.has_root;
                    has_all = λ k m s. elim m [
                      | here e ↦ absurd (cc (u, touched (subst (DependsOn root nodes) e s)))
                      | there m' ↦ c.has_all k m' s
                    ];
                  })
                  i
                  (λ e.
                    cc (
                      u,
                      touched (subst (λ (x : NodeDefinition). DependsOn root nodes x.key) e r),
                    )))
        ]
      ]
    where
      touched : DependsOn root nodes node.key → touches affected node.dependencies ≡ true
      touched s = must_touch seen affected node (sub node (here refl)) o.2 c s

      later :
          (affected' : List String)
          → (Complete (node.key ∷ seen) affected'
              → Member n rest
              → Member n.key (descendants_from root affected' rest))
          → Complete (node.key ∷ seen) affected'
          → Member n (node ∷ rest)
          → n ≢ node
          → Member n.key (descendants_from root affected' rest)
      later a ih c' (here e) other = absurd (other e)
      later a ih c' (there j) other = ih c' j

      taken :
          (Complete (node.key ∷ seen) (node.key ∷ affected)
            → Member n rest
            → Member n.key (descendants_from root (node.key ∷ affected) rest))
          → Member n (node ∷ rest)
          → Complete (node.key ∷ seen) (node.key ∷ affected)
          → Member n.key (node.key ∷ descendants_from root (node.key ∷ affected) rest)
      taken ih (here e) c' = here (ap (λ (x : NodeDefinition). x.key) e)
      taken ih (there j) c' = there (ih c' j)

-- The root itself is never found.
descendants_from-other :
    (root : String) (affected : List String) (rest : List NodeDefinition) (k : String)
    → Member k (descendants_from root affected rest)
    → k ≢ root
unfolding descendants_from
descendants_from-other root affected [] k m = elim m [ ]
descendants_from-other root affected (node ∷ rest) k m = elim (Bool-cases (node.key == root)) [
  | inl t ↦ descendants_from-other root affected rest k (rw t at m)
  | inr f ↦ elim (Bool-cases (touches affected node.dependencies)) [
    | inr u ↦ descendants_from-other root affected rest k (rw (f, u) at m)
    | inl t ↦ taken f (rw (f, t) at m) (descendants_from-other root (node.key ∷ affected) rest k)
  ]
]
  where
    taken :
        {later : List String}
        → (node.key == root) ≡ false
        → Member k (node.key ∷ later)
        → (Member k later → k ≢ root)
        → k ≢ root
    taken f (here e) ih = λ p. (let y = (eq_iff node.key root).1 (sym e ∙ p) in cc (y, f))
    taken f (there i) ih = ih i

-- In a pipeline that compiles, descendantKeys returns exactly the keys, other than the root, of the
-- nodes that depend on the root, directly or through other nodes.
pub descendant_keys_exact :
    (d c : Definition) (root k : String)
    → compile d ≡ ok c
    → Member k (descendant_keys c root).0 ↔ ((k ≢ root) × DependsOn root c.nodes k)
unfolding descendant_keys
descendant_keys_exact d c root k h = (
  (λ m. (
    descendants_from-other root (root ∷ []) c.nodes k m,
    descendants_from-Sound root c.nodes (root ∷ []) c.nodes start (λ x j. j) k m,
  )),
  (λ r. found r.0 r.1),
)
  where
    ordered : Ordered [] c.nodes
    ordered = compile-Ordered d h

    start : (k : String) → Member k (root ∷ []) → (k ≡ root) ⊎ DependsOn root c.nodes k
    start k (here e) = inl e
    start k (there m) = elim m [ ]

    found :
        k ≢ root → DependsOn root c.nodes k → Member k (descendants_from root (root ∷ []) c.nodes)
    found ne r =
        let (n, i, p, step) = last_step root c.nodes ordered r in
        subst (λ x. Member x (descendants_from root (root ∷ []) c.nodes)) p
          (descendants_from-Complete root c.nodes ordered [] (root ∷ []) c.nodes ordered (λ x j. j)
            (record { has_root = here refl; has_all = λ k m s. elim m [ ] }) n i
            (subst (DependsOn root c.nodes) (sym p) r) (λ q. ne (sym p ∙ q)))
