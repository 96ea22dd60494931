-- ===== src/Base/Sort.antt =====
-- `sort.Slice`: an insertion sort by the given test, one of the orders that Go may return.
use Prim.Native.Nat.{suc}
use mathlib.Core.Path.{◌≡◌, refl}
use mathlib.Core.Logic.{inl, inr}
use mathlib.Core.Bool.{Bool, true, false}
use mathlib.Core.List.{List, [], ◌∷◌}
use native.Mathlib.Omega.{arith}
use ody.Base.Tests.{if◌then◌else◌, Bool-cases}
use ody.Base.Lists.{Member, here, there, length, All, Pairwise}

module _ {ℓ} {A : Type ℓ} (less : A → A → Bool) where
  unfoldable pub insert_sorted : A → List A → List A
  insert_sorted x [] = x ∷ []
  insert_sorted x (y ∷ ys) =
      let rest = insert_sorted x ys in if less y x then y ∷ rest else x ∷ y ∷ ys

  unfoldable pub sort : List A → List A
  unfolding insert_sorted
  sort [] = []
  sort (x ∷ xs) = insert_sorted x (sort xs)

  mem-insert_sorted_self : (x : A) (ys : List A) → Member x (insert_sorted x ys)
  unfolding insert_sorted
  mem-insert_sorted_self x [] = here refl
  mem-insert_sorted_self x (y ∷ ys) = elim (Bool-cases (less y x)) [
    | inl t ↦ rw t (there (mem-insert_sorted_self x ys))
    | inr f ↦ rw f (here refl)
  ]

  mem-insert_sorted : {a : A} (x : A) {ys : List A} → Member a ys → Member a (insert_sorted x ys)
  unfolding insert_sorted
  mem-insert_sorted x (here {x = y} e) = elim (Bool-cases (less y x)) [
    | inl t ↦ rw t (here e)
    | inr f ↦ rw f (there (here e))
  ]
  mem-insert_sorted x (there {x = y} m) = elim (Bool-cases (less y x)) [
    | inl t ↦ rw t (there (mem-insert_sorted x m))
    | inr f ↦ rw f (there (there m))
  ]

  mem_of_mem-insert_sorted :
      {a : A} (x : A) (ys : List A) → Member a (insert_sorted x ys) → Member a (x ∷ ys)
  unfolding insert_sorted
  mem_of_mem-insert_sorted x [] m = m
  mem_of_mem-insert_sorted {a} x (y ∷ ys) m = go (less y x) m (mem_of_mem-insert_sorted x ys)
    where
      go :
          (b : Bool)
          → Member a (if b then y ∷ insert_sorted x ys else x ∷ y ∷ ys)
          → (Member a (insert_sorted x ys) → Member a (x ∷ ys))
          → Member a (x ∷ y ∷ ys)
      go true (here e) ih = there (here e)
      go true (there n) ih = elim (ih n) [ here e ↦ here e | there r ↦ there (there r) ]
      go false n ih = n

  pub mem-sort : {a : A} {xs : List A} → Member a xs → Member a (sort xs)
  unfolding sort
  mem-sort (here {x = x} {xs = xs} e) = rw e (mem-insert_sorted_self x (sort xs))
  mem-sort (there {x = x} m) = mem-insert_sorted x (mem-sort m)

  pub mem_of_mem-sort : {a : A} (xs : List A) → Member a (sort xs) → Member a xs
  unfolding sort
  mem_of_mem-sort [] m = m
  mem_of_mem-sort (x ∷ xs) m = elim (mem_of_mem-insert_sorted x (sort xs) m) [
    | here e ↦ here e
    | there r ↦ there (mem_of_mem-sort xs r)
  ]

  length-insert_sorted : (x : A) (ys : List A) → length (insert_sorted x ys) ≡ suc (length ys)
  unfolding insert_sorted
  length-insert_sorted x [] = refl
  length-insert_sorted x (y ∷ ys) = ground (arith, length-insert_sorted x ys)

  pub length-sort : (xs : List A) → length (sort xs) ≡ length xs
  unfolding sort
  length-sort [] = refl
  length-sort (x ∷ xs) = omega (arith, length-insert_sorted x (sort xs), length-sort xs)

  -- Each element stands before none that is less than it.
  abbrev pub IsSorted : List A → Type ℓ
  IsSorted [] = Unit
  IsSorted (x ∷ xs) = All (λ y. less y x ≡ false) xs × IsSorted xs

module _ {ℓ κ} {A : Type ℓ} (less : A → A → Bool) (R : A → A → Type κ)
    (symmetric : (x y : A) → R x y → R y x) where
  insert_sorted-All_of :
      (P : A → Type κ) (x : A) (ys : List A) → P x → All P ys → All P (insert_sorted less x ys)
  unfolding insert_sorted
  insert_sorted-All_of P x [] p a = (p, tt)
  insert_sorted-All_of P x (y ∷ ys) p a = elim (Bool-cases (less y x)) [
    | inl t ↦ rw t (a.0, insert_sorted-All_of P x ys p a.1)
    | inr f ↦ rw f (p, a)
  ]

  insert_sorted-Pairwise :
      (x : A) (ys : List A) → All (R x) ys → Pairwise R ys → Pairwise R (insert_sorted less x ys)
  unfolding insert_sorted
  insert_sorted-Pairwise x [] a p = (tt, tt)
  insert_sorted-Pairwise x (y ∷ ys) a p = elim (Bool-cases (less y x)) [
    | inl t ↦ rw t (
      insert_sorted-All_of (R y) x ys (symmetric x y a.0) p.0,
      insert_sorted-Pairwise x ys a.1 p.1,
    )
    | inr f ↦ rw f (a, p)
  ]

  pub sort-All : (P : A → Type κ) (xs : List A) → All P xs → All P (sort less xs)
  unfolding sort
  sort-All P [] a = tt
  sort-All P (x ∷ xs) a = insert_sorted-All_of P x (sort less xs) a.0 (sort-All P xs a.1)

  -- A symmetric relation between all pairs does not depend on the order.
  pub sort-Pairwise : (xs : List A) → Pairwise R xs → Pairwise R (sort less xs)
  unfolding sort
  sort-Pairwise [] p = tt
  sort-Pairwise (x ∷ xs) p =
      insert_sorted-Pairwise x (sort less xs) (sort-All (R x) xs p.0) (sort-Pairwise xs p.1)

module _ {ℓ} {A : Type ℓ} (less : A → A → Bool)
    (asym : (x y : A) → less x y ≡ true → less y x ≡ false)
    (trans : (x y z : A) → less y x ≡ false → less z y ≡ false → less z x ≡ false) where
  All-not_less :
      (x y : A) (zs : List A)
      → less y x ≡ false
      → All (λ z. less z y ≡ false) zs
      → All (λ z. less z x ≡ false) zs
  All-not_less x y [] h a = tt
  All-not_less x y (z ∷ zs) h a = (trans x y z h a.0, All-not_less x y zs h a.1)

  insert_sorted-All :
      (w x : A) (ys : List A)
      → less x w ≡ false
      → All (λ z. less z w ≡ false) ys
      → All (λ z. less z w ≡ false) (insert_sorted less x ys)
  unfolding insert_sorted
  insert_sorted-All w x [] p a = (p, tt)
  insert_sorted-All w x (y ∷ ys) p a = elim (Bool-cases (less y x)) [
    | inl t ↦ rw t (a.0, insert_sorted-All w x ys p a.1)
    | inr f ↦ rw f (p, a)
  ]

  insert_sorted-IsSorted :
      (x : A) (ys : List A) → IsSorted less ys → IsSorted less (insert_sorted less x ys)
  unfolding insert_sorted
  insert_sorted-IsSorted x [] s = (tt, tt)
  insert_sorted-IsSorted x (y ∷ ys) s = elim (Bool-cases (less y x)) [
    | inl t ↦ rw t (insert_sorted-All y x ys (asym y x t) s.0, insert_sorted-IsSorted x ys s.1)
    | inr f ↦ rw f ((f, All-not_less x y ys f s.0), s)
  ]

  pub sort-IsSorted : (xs : List A) → IsSorted less (sort less xs)
  unfolding sort
  sort-IsSorted [] = tt
  sort-IsSorted (x ∷ xs) = insert_sorted-IsSorted x (sort less xs) (sort-IsSorted xs)
