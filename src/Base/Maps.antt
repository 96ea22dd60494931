-- ===== src/Base/Maps.antt =====
-- Go's maps as association lists with distinct keys. The order of the list is the order in which
-- `range` meets the entries; statements over every list cover every such order.
use mathlib.Core.Path.{◌≡◌, refl, ap}
use mathlib.Core.Logic.{◌≢◌, ◌⊎◌, inl, inr}
use mathlib.Core.Option.{Option, none, some}
use mathlib.Core.List.{List, [], ◌∷◌}
use native.Mathlib.Omega.{arith}
use ody.Base.Tests.{Eq, ◌==◌, if◌then◌else◌, Bool-cases, beq_refl}
use ody.Base.Lists.{Member, here, there}

abbrev pub Map {ℓ κ} : Type ℓ → Type κ → Type (ℓ ⊔ κ)
Map K V = List (K × V)

-- `for _, v := range m`
abbrev pub values {ℓ κ} : {K : Type ℓ} {V : Type κ} → Map K V → List V
values [] = []
values ((k, v) ∷ m) = v ∷ values m

-- `for k, v := range m { body }`, over the entries that the map has when the loop starts.
unfoldable pub for_range {ℓ κ μ} :
    {K : Type ℓ} {V : Type κ} {S : Type μ} → (K → V → S → S) → Map K V → S → S
for_range body [] s = s
for_range body ((k, v) ∷ m) s = for_range body m (body k v s)

-- An invariant of the entries still to come and the state.
pub for_range_inv {ℓ κ μ ν} :
    {K : Type ℓ} {V : Type κ} {S : Type μ} (P : Map K V → S → Type ν) (body : K → V → S → S)
    → ((k : K) (v : V) (m : Map K V) (s : S) → P ((k, v) ∷ m) s → P m (body k v s))
    → (m : Map K V) (s : S) → P m s
    → P [] (for_range body m s)
unfolding for_range
for_range_inv P body keep [] s h = h
for_range_inv P body keep ((k, v) ∷ m) s h =
    for_range_inv P body keep m (body k v s) (keep k v m s h)

module _ {ℓ κ} {K : Type ℓ} {V : Type κ} ⦃e : Eq K⦄ where
  unfoldable pub lookup : K → Map K V → Option V
  lookup key [] = none
  lookup key (entry ∷ rest) = if entry.0 == key then some entry.1 else lookup key rest

  -- `m[k] = v`
  unfoldable pub insert : K → V → Map K V → Map K V
  insert key value [] = (key, value) ∷ []
  insert key value ((k, v) ∷ rest) =
      if k == key then (k, value) ∷ rest else (k, v) ∷ insert key value rest

  -- `delete(m, k)`
  unfoldable pub delete : K → Map K V → Map K V
  delete k [] = []
  delete k ((j, v) ∷ m) = let rest = delete k m in if j == k then rest else (j, v) ∷ rest

  -- `m[k]` as a value: the zero value where the key is missing.
  unfoldable pub find_or : V → K → Map K V → V
  find_or zero_value k m = elim (lookup k m) [ none ↦ zero_value | some v ↦ v ]

  pub find_or-none : (z : V) (k : K) (m : Map K V) → lookup k m ≡ none → find_or z k m ≡ z
  unfolding find_or
  find_or-none z k m h = ground arith

  pub find_or-some : (z v : V) (k : K) (m : Map K V) → lookup k m ≡ some v → find_or z k m ≡ v
  unfolding find_or
  find_or-some z v k m h = ground arith

  -- No key stands twice, as in every Go map.
  unfoldable pub Distinct : Map K V → Type κ
  Distinct [] = Unit
  Distinct ((k, v) ∷ m) = (lookup k m ≡ none) × Distinct m

  pub lookup-insert :
      (k j : K) (v : V) (m : Map K V)
      → lookup j (insert k v m) ≡ (if k == j then some v else lookup j m)
  unfolding insert lookup
  lookup-insert k j v [] = refl
  lookup-insert k j v ((other, old) ∷ rest) =
      ground (arith, lookup-insert k j v rest, e.beq_iff other k, e.beq_iff other j, e.beq_iff k j)

  pub lookup-delete :
      (k j : K) (m : Map K V) → lookup j (delete k m) ≡ (if k == j then none else lookup j m)
  unfolding lookup delete
  lookup-delete k j [] = ground arith
  lookup-delete k j ((i, w) ∷ m) =
      ground (arith, lookup-delete k j m, e.beq_iff i k, e.beq_iff i j, e.beq_iff k j)

  pub lookup-insert_self : (k : K) (v : V) (m : Map K V) → lookup k (insert k v m) ≡ some v
  lookup-insert_self k v m = rw (lookup-insert k k v m, beq_refl k)

  pub lookup-insert_ne :
      (k j : K) (v : V) (m : Map K V) → k ≢ j → lookup j (insert k v m) ≡ lookup j m
  lookup-insert_ne k j v m n = ground (arith, lookup-insert k j v m, e.beq_iff k j, n)

  pub lookup-delete_ne : (k j : K) (m : Map K V) → k ≢ j → lookup j (delete k m) ≡ lookup j m
  lookup-delete_ne k j m n = ground (arith, lookup-delete k j m, e.beq_iff k j, n)

  -- What a lookup finds after a write, and after a deletion.
  pub lookup_of_insert :
      (k j : K) (v w : V) (m : Map K V)
      → lookup j (insert k v m) ≡ some w
      → (k ≡ j) × (v ≡ w) ⊎ (k ≢ j) × (lookup j m ≡ some w)
  lookup_of_insert k j v w m h = elim (Bool-cases (k == j)) [
    | inl t ↦ inl ((e.beq_iff k j).0 t, ground (arith, lookup-insert k j v m))
    | inr f ↦ inr (λ p. cc (f, (e.beq_iff k j).1 p), ground (arith, lookup-insert k j v m))
  ]

  pub lookup_of_delete :
      (k j : K) (w : V) (m : Map K V)
      → lookup j (delete k m) ≡ some w
      → (k ≢ j) × (lookup j m ≡ some w)
  lookup_of_delete k j w m h = elim (Bool-cases (k == j)) [
    | inl t ↦ absurd (ground (arith, lookup-delete k j m))
    | inr f ↦ (λ p. cc (f, (e.beq_iff k j).1 p), ground (arith, lookup-delete k j m))
  ]

  pub insert-Distinct : (k : K) (v : V) (m : Map K V) → Distinct m → Distinct (insert k v m)
  unfolding Distinct insert lookup
  insert-Distinct k v [] d = (refl, tt)
  insert-Distinct k v ((j, w) ∷ m) d = elim (Bool-cases (j == k)) [
    | inl t ↦ rw t d
    | inr f ↦ rw f (
      ground (arith, lookup-insert k j v m, e.beq_iff k j, e.beq_iff j k),
      insert-Distinct k v m d.1,
    )
  ]

  pub delete-Distinct : (k : K) (m : Map K V) → Distinct m → Distinct (delete k m)
  unfolding Distinct delete
  delete-Distinct k [] d = tt
  delete-Distinct k ((j, w) ∷ m) d = elim (Bool-cases (j == k)) [
    | inl t ↦ rw t (delete-Distinct k m d.1)
    | inr f ↦ rw f (ground (arith, lookup-delete k j m), delete-Distinct k m d.1)
  ]

  pub mem_of_lookup : (k : K) (v : V) (m : Map K V) → lookup k m ≡ some v → Member (k, v) m
  unfolding lookup
  mem_of_lookup k v [] h = absurd (cc)
  mem_of_lookup k v ((j, w) ∷ m) h = elim (Bool-cases (j == k)) [
    | inl t ↦ here (ground (arith, e.beq_iff j k))
    | inr f ↦ there (mem_of_lookup k v m (ground arith))
  ]

  pub lookup_of_mem :
      (k : K) (v : V) (m : Map K V) → Distinct m → Member (k, v) m → lookup k m ≡ some v
  unfolding lookup Distinct
  lookup_of_mem k v [] d n = elim n [ ]
  lookup_of_mem k v ((j, w) ∷ m) d (here p) =
      ground (arith, e.beq_iff j k, ap (λ (t : K × V). t.0) p, ap (λ (t : K × V). t.1) p)
  lookup_of_mem k v ((j, w) ∷ m) d (there n) =
      let ih = lookup_of_mem k v m d.1 n in ground (arith, e.beq_iff j k, d.0, ih)

  -- The entries that follow in a loop stand under other keys.
  pub ne_of_mem :
      (k j : K) (v w : V) (m : Map K V) → Distinct ((k, v) ∷ m) → Member (j, w) m → k ≢ j
  unfolding Distinct
  ne_of_mem k j v w m d n p = absurd (cc (p, d.0, lookup_of_mem j w m d.1 n))

module _ {ℓ κ} {K : Type ℓ} {V : Type κ} where
  pub mem-values : {k : K} {v : V} {m : Map K V} → Member (k, v) m → Member v (values m)
  mem-values (here {x = (j, w)} p) = here (ap (λ (t : K × V). t.1) p)
  mem-values (there {x = (j, w)} n) = there (mem-values n)

  pub mem_of_mem-values : {v : V} (m : Map K V) → Member v (values m) → (k : K) × Member (k, v) m
  mem_of_mem-values [] n = elim n [ ]
  mem_of_mem-values ((k, w) ∷ m) (here p) = (k, here (ap (λ (x : V). (k, x)) p))
  mem_of_mem-values ((k, w) ∷ m) (there n) = let r = mem_of_mem-values m n in (r.0, there r.1)
