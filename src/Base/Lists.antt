-- ===== src/Base/Lists.antt =====
-- Lists measured by native numbers, membership and bounded quantifiers by recursion.
use Prim.Native.Nat.{ℕ, zero, suc, ◌+◌, ◌≤◌}
use mathlib.Core.Path.{◌≡◌, refl, sym, ap, ◌∙◌}
use mathlib.Core.Logic.{◌⊎◌, inl, inr}
use mathlib.Core.Bool.{Bool, true, false, ◌||◌}
use mathlib.Core.List.{List, [], ◌∷◌, ◌++◌}
use native.Mathlib.Omega.{arith}
use ody.Base.Tests.{if◌then◌else◌, Eq, ◌==◌, Bool-cases}

module _ {ℓ} {A : Type ℓ} where
  abbrev pub length : List A → ℕ
  length [] = 0
  length (x ∷ xs) = suc (length xs)

  abbrev pub take : ℕ → List A → List A
  take zero xs = []
  take (suc n) [] = []
  take (suc n) (x ∷ xs) = x ∷ take n xs

  -- `for … { if !keep(x) { continue }; out = append(out, x) }`
  abbrev pub select : (A → Bool) → List A → List A
  select keep [] = []
  select keep (x ∷ xs) = let rest = select keep xs in if keep x then x ∷ rest else rest

  abbrev pub All {κ} : (A → Type κ) → List A → Type κ
  All P [] = Unit
  All P (x ∷ xs) = P x × All P xs

  -- The elements of the first list, the last one first, before those of the second.
  abbrev pub reverse_onto : List A → List A → List A
  reverse_onto [] ys = ys
  reverse_onto (x ∷ xs) ys = reverse_onto xs (x ∷ ys)

  -- Each element stands in the relation to every later one.
  abbrev pub Pairwise {κ} : (A → A → Type κ) → List A → Type κ
  Pairwise R [] = Unit
  Pairwise R (x ∷ xs) = All (R x) xs × Pairwise R xs

-- `a` stands in the list.
pub data Member {ℓ} {A : Type ℓ} (a : A) : List A → Type ℓ where
  here : {x : A} {xs : List A} → a ≡ x → Member a (x ∷ xs)
  there : {x : A} {xs : List A} → Member a xs → Member a (x ∷ xs)

module _ {ℓ} {A : Type ℓ} where
  pub length-append : (xs ys : List A) → length (xs ++ ys) ≡ length xs + length ys
  length-append [] ys = omega arith
  length-append (x ∷ xs) ys = omega (arith, length-append xs ys)

  pub length-take-le : (n : ℕ) (xs : List A) → length (take n xs) ≤ n
  length-take-le zero xs = omega arith
  length-take-le (suc n) [] = omega arith
  length-take-le (suc n) (x ∷ xs) = omega (arith, length-take-le n xs)

  pub length-take_full : (n : ℕ) (xs : List A) → n ≤ length xs → length (take n xs) ≡ n
  length-take_full zero xs h = refl
  length-take_full (suc n) [] h = absurd (omega arith)
  length-take_full (suc n) (x ∷ xs) h = ap suc (length-take_full n xs (omega arith))

  -- A list that is cut short has at least as many members as the cut allows.
  pub take_all : (n : ℕ) (xs : List A) → length xs ≤ n → take n xs ≡ xs
  take_all zero [] h = refl
  take_all zero (x ∷ xs) h = absurd (omega arith)
  take_all (suc n) [] h = refl
  take_all (suc n) (x ∷ xs) h = ap (◌∷◌ x) (take_all n xs (omega arith))

  pub mem-take : {a : A} (n : ℕ) (xs : List A) → Member a (take n xs) → Member a xs
  mem-take zero xs m = elim m [ ]
  mem-take (suc n) [] m = m
  mem-take (suc n) (x ∷ xs) (here e) = here e
  mem-take (suc n) (x ∷ xs) (there m) = there (mem-take n xs m)

  pub mem-append_left : {a : A} {xs : List A} (ys : List A) → Member a xs → Member a (xs ++ ys)
  mem-append_left ys (here e) = here e
  mem-append_left ys (there m) = there (mem-append_left ys m)

  pub mem-append_right : {a : A} (xs : List A) {ys : List A} → Member a ys → Member a (xs ++ ys)
  mem-append_right [] m = m
  mem-append_right (x ∷ xs) m = there (mem-append_right xs m)

  pub mem_of_mem-append : {a : A} (xs ys : List A) → Member a (xs ++ ys) → Member a xs ⊎ Member a ys
  mem_of_mem-append [] ys m = inr m
  mem_of_mem-append (x ∷ xs) ys (here e) = inl (here e)
  mem_of_mem-append (x ∷ xs) ys (there m) = elim (mem_of_mem-append xs ys m) [
    | inl l ↦ inl (there l)
    | inr r ↦ inr r
  ]

module _ {ℓ} {A : Type ℓ} (keep : A → Bool) where
  pub mem-select : {a : A} {xs : List A} → Member a xs → keep a ≡ true → Member a (select keep xs)
  mem-select (here {x = x} e) h = rw (ap keep (sym e) ∙ h) (here e)
  mem-select (there {x = x} m) h = elim (Bool-cases (keep x)) [
    | inl t ↦ rw t (there (mem-select m h))
    | inr f ↦ rw f (mem-select m h)
  ]

  pub mem_of_mem-select :
      {a : A} (xs : List A) → Member a (select keep xs) → Member a xs × (keep a ≡ true)
  mem_of_mem-select [] m = elim m [ ]
  mem_of_mem-select {a} (x ∷ xs) m = go (keep x) refl m (mem_of_mem-select xs)
    where
      go :
          (b : Bool)
          → keep x ≡ b
          → Member a (if b then x ∷ select keep xs else select keep xs)
          → (Member a (select keep xs) → Member a xs × (keep a ≡ true))
          → Member a (x ∷ xs) × (keep a ≡ true)
      go true t (here e) ih = (here e, ap keep e ∙ t)
      go true t (there n) ih = let p = ih n in (there p.0, p.1)
      go false f n ih = let p = ih n in (there p.0, p.1)

module _ {ℓ κ} {A : Type ℓ} (P : A → Type κ) where
  pub All-of_mem : (xs : List A) → ((a : A) → Member a xs → P a) → All P xs
  All-of_mem [] h = tt
  All-of_mem (x ∷ xs) h = (h x (here refl), All-of_mem xs (λ a m. h a (there m)))

  pub All-mem : {a : A} {xs : List A} → All P xs → Member a xs → P a
  All-mem h (here e) = rw e h.0
  All-mem h (there m) = All-mem h.1 m

  pub All-append : (xs ys : List A) → All P xs → All P ys → All P (xs ++ ys)
  All-append [] ys h k = k
  All-append (x ∷ xs) ys h k = (h.0, All-append xs ys h.1 k)

  pub All-take : (n : ℕ) (xs : List A) → All P xs → All P (take n xs)
  All-take zero xs h = tt
  All-take (suc n) [] h = tt
  All-take (suc n) (x ∷ xs) h = (h.0, All-take n xs h.1)

  pub All-select : (keep : A → Bool) (xs : List A) → All P xs → All P (select keep xs)
  All-select keep [] h = tt
  All-select keep (x ∷ xs) h = elim (Bool-cases (keep x)) [
    | inl t ↦ rw t (h.0, All-select keep xs h.1)
    | inr f ↦ rw f (All-select keep xs h.1)
  ]

module _ {ℓ κ} {A : Type ℓ} (R : A → A → Type κ) where
  pub Pairwise-take : (n : ℕ) (xs : List A) → Pairwise R xs → Pairwise R (take n xs)
  Pairwise-take zero xs h = tt
  Pairwise-take (suc n) [] h = tt
  Pairwise-take (suc n) (x ∷ xs) h = (All-take (R x) n xs h.0, Pairwise-take n xs h.1)

  pub Pairwise-select :
      (keep : A → Bool) (xs : List A) → Pairwise R xs → Pairwise R (select keep xs)
  Pairwise-select keep [] h = tt
  Pairwise-select keep (x ∷ xs) h = elim (Bool-cases (keep x)) [
    | inl t ↦ rw t (All-select (R x) keep xs h.0, Pairwise-select keep xs h.1)
    | inr f ↦ rw f (Pairwise-select keep xs h.1)
  ]

module _ {ℓ} {A : Type ℓ} ⦃e : Eq A⦄ where
  -- `_, ok := set[a]` for a set that was filled from a list.
  abbrev pub contains : List A → A → Bool
  contains [] a = false
  contains (x ∷ xs) a = x == a || contains xs a

  pub mem_of_contains : (xs : List A) (a : A) → contains xs a ≡ true → Member a xs
  mem_of_contains [] a h = absurd (cc)
  mem_of_contains (x ∷ xs) a h = elim (Bool-cases (x == a)) [
    | inl t ↦ here (sym ((e.beq_iff x a).0 t))
    | inr f ↦ there (mem_of_contains xs a (ground arith))
  ]

  pub contains_of_mem : {a : A} {xs : List A} → Member a xs → contains xs a ≡ true
  contains_of_mem {a} (here {x = x} p) = ground (arith, (e.beq_iff x a).1 (sym p))
  contains_of_mem (there m) = ground (arith, contains_of_mem m)
