-- ===== src/Memory/Transition/Loops.antt =====
-- Which entries of the map of executions a method changes, for single writes and for loops.
use ody.Base.{
  Distinct, lookup, inl, delete, Member, lookup_of_mem, ◌∷◌, some_inj, lookup_of_delete, there,
  insert, nat_eq, some, sym, lookup-insert_ne, ◌∙◌, lookup_of_insert, ne_of_mem, ap, here, inr,
  subst, ◌≡◌, ◌⊎◌, Map, refl,
}
use ody.Execution.{Uuid, Execution}

-- Between the two maps each entry is the same, or has changed as `R` allows.
abbrev pub Changes :
    (Execution → Execution → Type 0) → Map Uuid Execution → Map Uuid Execution → Type 0
Changes R m n =
    (id : Uuid) (e f : Execution) → lookup id m ≡ some e → lookup id n ≡ some f → (f ≡ e) ⊎ R e f

module _ (R : Execution → Execution → Type 0) where
  pub Changes-refl : (m : Map Uuid Execution) → Changes R m m
  Changes-refl m id e f h k = inl (some_inj (sym k ∙ h))

  pub Changes-insert :
      (m : Map Uuid Execution) (id : Uuid) (e f : Execution)
      → lookup id m ≡ some e
      → R e f
      → Changes R m (insert id f m)
  Changes-insert m id e f stored r j x y h k = elim (lookup_of_insert id j f y m k) [
    | inl (p, q) ↦
        (let x_e : e ≡ x = some_inj (sym stored ∙ ap (λ i. lookup i m) p ∙ h) in
          inr (subst (λ t. R t y) x_e (subst (R e) q r)))
    | inr (n, o) ↦ inl (some_inj (sym o ∙ h))
  ]

  pub Changes-delete :
      (m n : Map Uuid Execution) (id : Uuid) → Changes R m n → Changes R m (delete id n)
  Changes-delete m n id c j x y h k = c j x y h (lookup_of_delete id j y n k).1

  -- Between two turns of a loop over the executions `m`, which has come to `n`.
  pub record Midway (m rest n : Map Uuid Execution) : Type 0 where
    pub apart : Distinct rest
    pub untouched :
        (id : Uuid) (e : Execution)
        → Member (id, e) rest
        → (lookup id m ≡ some e) × (lookup id n ≡ some e)
    pub changed : Changes R m n

  pub Midway-start : (m : Map Uuid Execution) → Distinct m → Midway m m m
  Midway-start m d = record {
    apart = d;
    untouched = λ id e n. let l = lookup_of_mem id e m d n in (l, l);
    changed = Changes-refl m;
  }

  pub Midway-skip :
      (id : Uuid) (e : Execution) (m rest n : Map Uuid Execution)
      → Midway m ((id, e) ∷ rest) n
      → Midway m rest n
  unfolding Distinct
  Midway-skip id e m rest n w = record {
    apart = w.apart.1;
    untouched = λ j x i. w.untouched j x (there i);
    changed = w.changed;
  }

  pub Midway-insert :
      (id : Uuid) (e f : Execution) (m rest n : Map Uuid Execution)
      → R e f
      → Midway m ((id, e) ∷ rest) n
      → Midway m rest (insert id f n)
  unfolding Distinct
  Midway-insert id e f m rest n r w = record {
    apart = w.apart.1;
    untouched = λ j x i.
        let old = w.untouched j x (there i) in
        (old.0, lookup-insert_ne id j f n (ne_of_mem id j e x rest w.apart i) ∙ old.1);
    changed = λ j x y h k. elim (lookup_of_insert id j f y n k) [
      | inl (p, q) ↦
          (let x_e : e ≡ x =
              some_inj (sym (w.untouched id e (here refl)).0 ∙ ap (λ i. lookup i m) p ∙ h) in
            inr (subst (λ t. R t y) x_e (subst (R e) q r)))
      | inr (ne, o) ↦ w.changed j x y h o
    ];
  }
