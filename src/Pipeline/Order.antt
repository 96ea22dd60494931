-- ===== src/Pipeline/Order.antt =====
-- `validate` (pipeline/definition.go): declaration order is a topological order.
use ody.Execution.{ok}
use ody.Base.{
  List, ◌≡◌, String, ◌∷◌, true, ◌++◌, ◌≢◌, [], Member, All, reverse_onto, mem_of_contains, none,
  arith, ◌==◌, eq_iff, string_eq, false, contains_of_mem, contains, subst, ◌⊎◌, there, here, sym,
  inr, All-of_mem, inl, All-mem,
}
use ody.Pipeline.{NodeDefinition, Definition, validate_nodes, compile, all_seen, trim_space}

-- Every node has a key of its own that no earlier one has, and depends on earlier ones only.
abbrev pub Ordered : List String → List NodeDefinition → Type 0
Ordered seen [] = Unit
Ordered seen (node ∷ rest) =
    (node.key ≢ "")
    × (¬ Member node.key seen)
    × All (λ d. Member d seen) node.dependencies
    × Ordered (node.key ∷ seen) rest

all_seen-All : (seen ds : List String) → all_seen seen ds ≡ true → All (λ d. Member d seen) ds
unfolding all_seen
all_seen-All seen [] h = tt
all_seen-All seen (d ∷ ds) h =
    (mem_of_contains seen d (ground arith), all_seen-All seen ds (ground arith))

-- What a node that passed the loop's tests has passed.
validate_nodes-cons :
    (seen : List String) (node : NodeDefinition) (rest : List NodeDefinition)
    {nodes : List NodeDefinition}
    → validate_nodes seen (node ∷ rest) ≡ ok nodes
    → (node.failure ≡ none)
      × ((trim_space node.key == "") ≡ false)
      × (contains seen (trim_space node.key) ≡ false)
      × (all_seen seen node.dependencies ≡ true)
      × ((later : List NodeDefinition) × (validate_nodes (trim_space node.key ∷ seen) rest
            ≡ ok later)
          × (nodes ≡ record node { key = trim_space node.key } ∷ later))
unfolding validate_nodes
validate_nodes-cons seen node rest h = ground arith

validate_nodes-Ordered :
    (seen : List String) (given : List NodeDefinition) {nodes : List NodeDefinition}
    → validate_nodes seen given ≡ ok nodes
    → Ordered seen nodes
validate_nodes-Ordered seen [] h = unfold validate_nodes in ground arith
validate_nodes-Ordered seen (node ∷ rest) h =
    let (f, named, new, known, found) = validate_nodes-cons seen node rest h in
    let (later, r, e) = found in
    rw e (
      (λ p. cc (named, (eq_iff (trim_space node.key) "").1 p)),
      (λ m. cc (new, contains_of_mem m)),
      all_seen-All seen node.dependencies known,
      validate_nodes-Ordered (trim_space node.key ∷ seen) rest r,
    )

compile-nodes :
    (d : Definition) {c : Definition}
    → compile d ≡ ok c
    → (nodes : List NodeDefinition) × (validate_nodes [] d.nodes ≡ ok nodes) × (c.nodes ≡ nodes)
unfolding compile
compile-nodes d h = ground arith

pub compile-Ordered : (d : Definition) {c : Definition} → compile d ≡ ok c → Ordered [] c.nodes
compile-Ordered d h =
    let (nodes, p, e) = compile-nodes d h in
    subst (Ordered []) (sym e) (validate_nodes-Ordered [] d.nodes p)

abbrev pub keys_of : List NodeDefinition → List String
keys_of [] = []
keys_of (node ∷ rest) = node.key ∷ keys_of rest

reverse_onto-mem :
    {k : String} (xs ys : List String) → Member k (reverse_onto xs ys) → Member k xs ⊎ Member k ys
reverse_onto-mem [] ys m = inr m
reverse_onto-mem (x ∷ xs) ys m = elim (reverse_onto-mem xs (x ∷ ys) m) [
  | inl l ↦ inl (there l)
  | inr (here e) ↦ inl (here e)
  | inr (there r) ↦ inr r
]

mem-reverse_onto_right :
    {k : String} (xs ys : List String) → Member k ys → Member k (reverse_onto xs ys)
mem-reverse_onto_right [] ys m = m
mem-reverse_onto_right (x ∷ xs) ys m = mem-reverse_onto_right xs (x ∷ ys) (there m)

mem-reverse_onto_left :
    {k : String} {xs : List String} (ys : List String) → Member k xs → Member k (reverse_onto xs ys)
mem-reverse_onto_left {xs = []} ys m = elim m [ ]
mem-reverse_onto_left {xs = x ∷ xs} ys (here e) = mem-reverse_onto_right xs (x ∷ ys) (here e)
mem-reverse_onto_left {xs = x ∷ xs} ys (there m) = mem-reverse_onto_left (x ∷ ys) m

-- The conditions of a node in the middle, over the keys seen when the loop comes to it.
Ordered-middle :
    (seen : List String) (pre : List NodeDefinition) (node : NodeDefinition)
    (post : List NodeDefinition)
    → Ordered seen (pre ++ node ∷ post)
    → (node.key ≢ "")
      × (¬ Member node.key (reverse_onto (keys_of pre) seen))
      × All (λ d. Member d (reverse_onto (keys_of pre) seen)) node.dependencies
Ordered-middle seen [] node post o = (o.0, o.1, o.2)
Ordered-middle seen (n ∷ pre) node post o = Ordered-middle (n.key ∷ seen) pre node post o.3

-- In a pipeline that compiles, a node has a key that is not empty and that no earlier node has, and
-- each of its dependencies is the key of an earlier node.
pub compile_topological :
    (d c : Definition) (pre post : List NodeDefinition) (node : NodeDefinition)
    → compile d ≡ ok c
    → c.nodes ≡ pre ++ node ∷ post
    → (node.key ≢ "")
      × (¬ Member node.key (keys_of pre))
      × All (λ d. Member d (keys_of pre)) node.dependencies
compile_topological d c pre post node h e =
    let (named, new, known) =
      Ordered-middle [] pre node post (subst (Ordered []) e (compile-Ordered d h)) in
    (
      named,
      (λ m. new (mem-reverse_onto_left [] m)),
      All-of_mem (λ k. Member k (keys_of pre)) node.dependencies
          (λ k m.
            elim (reverse_onto-mem (keys_of pre) []
              (All-mem (λ k. Member k (reverse_onto (keys_of pre) [])) known m)) [
                | inl l ↦ l
                | inr r ↦ elim r [ ]
              ]),
    )
