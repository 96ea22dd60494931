-- ===== src/Redis/Listed.antt =====
-- ListExecutions (execution/redis/store.go) beside the list of all members of the index.
use ody.Memory.Query.{page}
use ody.Execution.{ListFilter, Execution, ok, Result-cases, ok_inj, err_ne_ok}
use ody.Base.{
  String, List, ℕ, ◌∷◌, select, is_nonpos, ◌≡◌, true, false, sym, ◌<◌, inr, to_nat, Bool-cases,
  take, inl, ◌-◌, suc, [], refl, ◌∙◌, ap, zero, ◌==◌, nat_beq_iff, ℤ, arith, ◌≢◌, ap₂, nat_eq,
}
use ody.Redis.{Server, Codec}
use ody.Redis.Read.{get_member, get_members, list_matching, list_executions}
use ody.Redis.Filter.{execution_index_for, matches_execution_filter}

module _ {R : Type 0} (server : Server R) (codec : Codec) where
  -- The members that were read, one after the other.
  get_members-ok :
      (value : String) (members : List String) (s : R) (items : List Execution)
      → get_members server codec (value ∷ members) s ≡ ok items
      → (item : Execution) × (others : List Execution) × (get_member server codec value s ≡ ok item)
        × (get_members server codec members s ≡ ok others)
        × (items ≡ item ∷ others)
  unfolding get_members
  get_members-ok value members s items h = elim (Result-cases (get_member server codec value s)) [
    | inr (e, g) ↦ absurd (err_ne_ok (rw (g, get_members) at h))
    | inl (item, g) ↦ elim (Result-cases (get_members server codec members s)) [
      | inr (e, m) ↦ absurd (err_ne_ok (rw (g, m, get_members) at h))
      | inl (others, m) ↦ (item, others, g, m, sym (ok_inj (rw (g, m, get_members) at h)))
    ]
  ]

  module _ (filter : ListFilter) where
    abbrev chosen : List Execution → List Execution
    chosen = select (λ item. matches_execution_filter codec item filter)

    -- A member that does not match is passed over.
    list_matching-skip :
        (found : ℕ) (value : String) (members : List String) (s : R) (item : Execution)
        → get_member server codec value s ≡ ok item
        → matches_execution_filter codec item filter ≡ false
        → list_matching server codec filter found (value ∷ members) s
          ≡ list_matching server codec filter found members s
    unfolding list_matching
    list_matching-skip found value members s item g f = rw (g, f, list_matching) refl

    chosen_skip :
        (item : Execution) (others : List Execution)
        → matches_execution_filter codec item filter ≡ false
        → chosen (item ∷ others) ≡ chosen others
    chosen_skip item others f = rw f refl

    chosen_keep :
        (item : Execution) (others : List Execution)
        → matches_execution_filter codec item filter ≡ true
        → chosen (item ∷ others) ≡ item ∷ chosen others
    chosen_keep item others y = rw y refl

    list_matching-all :
        (found : ℕ) (members : List String) (s : R) (items : List Execution)
        → is_nonpos filter.limit ≡ true
        → get_members server codec members s ≡ ok items
        → list_matching server codec filter found members s ≡ ok (chosen items)
    unfolding list_matching get_members
    list_matching-all found [] s items n h = rw (sym (ok_inj h)) refl
    list_matching-all found (value ∷ members) s items n h =
        let (item, others, g, m, q) = get_members-ok value members s items h in
        let rest = list_matching-all (suc found) members s others n m in
        elim (Bool-cases (matches_execution_filter codec item filter)) [
          | inl y ↦
              (let last : list_matching server codec filter found (value ∷ members) s
                    ≡ ok (item ∷ chosen others) =
                  rw (g, y, n, rest, list_matching) refl in
                last ∙ ap ok (sym (ap chosen q ∙ chosen_keep item others y)))
          | inr f ↦
              list_matching-skip found value members s item g f
              ∙ list_matching-all found members s others n m
              ∙ ap ok (sym (ap chosen q ∙ chosen_skip item others f))
        ]

    list_matching-take :
        (found : ℕ) (members : List String) (s : R) (items : List Execution)
        → is_nonpos filter.limit ≡ false
        → found < to_nat filter.limit
        → get_members server codec members s ≡ ok items
        → list_matching server codec filter found members s
          ≡ ok (take (to_nat filter.limit - found) (chosen items))
    unfolding list_matching get_members
    list_matching-take found [] s items n b h = rw (sym (ok_inj h)) (ap ok (sym (take_nil _)))
      where
        take_nil : (k : ℕ) → take {A = Execution} k [] ≡ []
        take_nil zero = refl
        take_nil (suc k) = refl
    list_matching-take found (value ∷ members) s items n b h =
        let (item, others, g, m, q) = get_members-ok value members s items h in
        elim (Bool-cases (matches_execution_filter codec item filter)) [
          | inr f ↦
              list_matching-skip found value members s item g f
              ∙ list_matching-take found members s others n b m
              ∙ ap (λ x. ok (take (to_nat filter.limit - found) x))
                  (sym (ap chosen q ∙ chosen_skip item others f))
          | inl y ↦
              (let kept = ap chosen q ∙ chosen_keep item others y in
                elim (Bool-cases (suc found == to_nat filter.limit)) [
                  | inl e ↦
                      (let one : to_nat filter.limit - found ≡ 1 =
                          full found (to_nat filter.limit) e in
                        let last : list_matching server codec filter found (value ∷ members) s
                            ≡ ok (item ∷ []) =
                          rw (g, y, n, e, list_matching) refl in
                        last ∙ sym (ap₂ (λ k x. ok (take k x)) one kept))
                  | inr u ↦
                      (let (more, c) = room found (to_nat filter.limit) b u in
                        let rest = list_matching-take (suc found) members s others n more m in
                        let next : list_matching server codec filter found (value ∷ members) s
                            ≡ ok (item ∷ take (to_nat filter.limit - suc found) (chosen others)) =
                          rw (g, y, n, u, rest, list_matching) refl in
                        next ∙ sym (ap₂ (λ k x. ok (take k x)) c kept))
                ])
        ]
      where
        full : (a b : ℕ) → (suc a == b) ≡ true → b - a ≡ 1
        full a b h = (let e = (nat_beq_iff (suc a) b).0 h in omega arith)

        room : (a b : ℕ) → a < b → (suc a == b) ≡ false → (suc a < b) × (b - a ≡ suc (b - suc a))
        room a b h u =
            (let e : suc a ≢ b = λ p. (let y = (nat_beq_iff (suc a) b).1 p in cc (y, u)) in
              (omega arith, omega arith))

  -- ListExecutions of the Redis store, which reads the members of an index until it has enough of them,
  -- returns the page of all the executions of the index that match the filter, in its order, if each
  -- member of the index can be read.
  pub list_executions-page :
      (filter : ListFilter) (ids : List String) (s : R) (items : List Execution)
      → server.zrevrange (execution_index_for codec filter) s ≡ ok ids
      → get_members server codec ids s ≡ ok items
      → list_executions server codec filter s
        ≡ ok (page filter.limit (select (λ item. matches_execution_filter codec item filter) items))
  unfolding list_executions
  list_executions-page filter ids s items r h =
      rw (r, list_executions)
        (elim (Bool-cases (is_nonpos filter.limit)) [
          | inl y ↦ list_matching-all filter 0 ids s items y h ∙ rw y refl
          | inr n ↦
              list_matching-take filter 0 ids s items n (positive filter.limit n) h
              ∙ rw n (ap (λ k. ok (take k (chosen filter items))) (omega arith))
        ])
    where
      positive : (z : ℤ) → is_nonpos z ≡ false → 0 < to_nat z
      positive z p = ground arith
