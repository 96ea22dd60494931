-- ===== src/Schedule/Distinct.antt =====
-- The definitions that New (schedule/schedule.go) accepts have different names.
use ody.Execution.{Duration, ok, err_ne_ok, ok_inj, Result-cases}
use ody.Schedule.Configure.{accept_definitions, new_scheduler, Started}
use ody.Schedule.{Definition}
use ody.Base.{
  List, ◌≢◌, String, Option, contains, ◌≡◌, ◌∷◌, false, Pairwise, true, All, Bool-cases, subst,
  some, ◌==◌, inl, [], inr, eq_iff, All-of_mem, none, All-mem, string_eq,
}

module _ {S : Type 0} where
  abbrev pub Differ : Definition S → Definition S → Type 0
  Differ d e = d.name ≢ e.name

  unseen :
      (d e : Definition S) (seen : List String)
      → contains (d.name ∷ seen) e.name ≡ false
      → Differ d e × (contains seen e.name ≡ false)
  unseen d e seen h = elim (Bool-cases (d.name == e.name)) [
    | inl y ↦ absurd (true_ne_false (rw y at h))
    | inr n ↦ ((λ p. (let y = (eq_iff d.name e.name).1 p in cc (y, n))), rw n at h)
  ]
    where
      true_ne_false : true ≢ false
      true_ne_false p = cc

  accept_definitions-distinct :
      (seen : List String) (given : List (Option (Definition S))) (ds : List (Definition S))
      → accept_definitions seen given ≡ ok ds
      → Pairwise Differ ds × All (λ (d : Definition S). contains seen d.name ≡ false) ds
  unfolding accept_definitions
  accept_definitions-distinct seen [] ds h =
      subst (λ ds. Pairwise Differ ds × All (λ (d : Definition S). contains seen d.name ≡ false) ds)
        (ok_inj h) (tt, tt)
  accept_definitions-distinct seen (none ∷ rest) ds h = absurd (err_ne_ok h)
  accept_definitions-distinct seen (some d ∷ rest) ds h = elim (Bool-cases (d.name == "")) [
    | inl y ↦ absurd (err_ne_ok (rw (y, accept_definitions) at h))
    | inr n ↦ elim (Bool-cases (contains seen d.name)) [
      | inl y ↦ absurd (err_ne_ok (rw (n, y, accept_definitions) at h))
      | inr f ↦ elim (Result-cases (accept_definitions (d.name ∷ seen) rest)) [
        | inr (e, r) ↦ absurd (err_ne_ok (rw (n, f, r, accept_definitions) at h))
        | inl (others, r) ↦
            (let (p, a) = accept_definitions-distinct (d.name ∷ seen) rest others r in
              subst
                (λ ds.
                  Pairwise Differ ds × All (λ (d : Definition S). contains seen d.name ≡ false) ds)
                (ok_inj (rw (n, f, r, accept_definitions) at h))
                (
                  (
                    All-of_mem (Differ d) others (λ e m.
                        (unseen d e seen (
                          All-mem (λ (x : Definition S). contains (d.name ∷ seen) x.name ≡ false) a
                            m)).0),
                    p,
                  ),
                  (
                    f,
                    All-of_mem _ others (λ e m.
                        (unseen d e seen (
                          All-mem (λ (x : Definition S). contains (d.name ∷ seen) x.name ≡ false) a
                            m)).1),
                  ),
                ))
      ]
    ]
  ]

  pub new_scheduler-distinct :
      (store : Option S) (given : List (Option (Definition S))) (interval : Duration)
      (started : Started S)
      → new_scheduler store given interval ≡ ok started
      → Pairwise Differ started.definitions
  unfolding new_scheduler
  new_scheduler-distinct none given interval started h = absurd (err_ne_ok h)
  new_scheduler-distinct (some store) given interval started h =
      elim (Result-cases (accept_definitions [] given)) [
        | inr (e, r) ↦ absurd (err_ne_ok (rw (r, new_scheduler) at h))
        | inl (ds, r) ↦
            subst (λ (x : Started S). Pairwise Differ x.definitions)
              (ok_inj (rw (r, new_scheduler) at h)) (accept_definitions-distinct [] given ds r).0
      ]
