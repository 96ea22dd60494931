-- ===== src/Task/Registry/Sound.antt =====
-- What NewRegistry (task/registry.go) guarantees of the registry that it returns.
use ody.Base.{
  Pairwise, ◌≡◌, List, lookup, ◌≢◌, All, none, subst, Member, ◌++◌, insert, ◌∷◌, some, [],
  Option-cases, All-append, All-of_mem, inl, sym, inr, ◌∙◌, ap, mem_of_mem-append, Bool-cases, ◌==◌,
  lookup-insert, here, lookup-insert_self, there, lookup_of_insert, sort, string_eq,
  mem-append_right, sort-Pairwise, refl, mem-append_left, mem_of_mem-sort, mem-sort,
}
use ody.Task.Registry.{
  Descriptor, descriptor_key, Module, Registry, register_all, register_modules, new_registry,
  task_key_before,
}
use ody.Execution.{ok_inj, err_ne_ok, Result-cases, TaskKey, ok, task_key_eq}

-- The keys, each once, are those of the tasks, and a task stands under its own key.
pub record IsSound (r : Registry) : Type 0 where
  pub distinct : Pairwise ◌≢◌ r.keys
  pub known : (k : TaskKey) → Member k r.keys → (d : Descriptor) × (lookup k r.tasks ≡ some d)
  pub listed :
      (k : TaskKey) (d : Descriptor)
      → lookup k r.tasks ≡ some d
      → Member k r.keys × (descriptor_key d ≡ k)

none_ne_some {ℓ} : {A : Type ℓ} {a : A} → none ≢ some a
none_ne_some h = cc

Pairwise-snoc {ℓ κ} :
    {A : Type ℓ} (R : A → A → Type κ) (xs : List A) (x : A)
    → Pairwise R xs
    → All (λ y. R y x) xs
    → Pairwise R (xs ++ x ∷ [])
Pairwise-snoc R [] x p a = (tt, tt)
Pairwise-snoc R (y ∷ ys) x p a =
    (All-append (R y) ys (x ∷ []) p.0 (a.0, tt), Pairwise-snoc R ys x p.1 a.1)

added-IsSound :
    (d : Descriptor) (r : Registry)
    → lookup (descriptor_key d) r.tasks ≡ none
    → IsSound r
    → IsSound (record {
      tasks = insert (descriptor_key d) d r.tasks;
      keys = r.keys ++ descriptor_key d ∷ [];
    })
added-IsSound d r new s = record {
  distinct = Pairwise-snoc ◌≢◌ r.keys k s.distinct (
      All-of_mem (λ j. j ≢ k) r.keys
        λ j m p.
          let (e, h) = s.known j m in
          none_ne_some (sym new ∙ ap (λ i. lookup i r.tasks) (sym p) ∙ h));
  known = λ j m. elim (mem_of_mem-append r.keys (k ∷ []) m) [
    | inl old ↦ elim (Bool-cases (k == j)) [
      | inl t ↦ (d, rw lookup-insert (rw t refl))
      | inr f ↦ (let (e, h) = s.known j old in (e, rw lookup-insert (rw f h)))
    ]
    | inr (here e) ↦ (d, rw e (lookup-insert_self k d r.tasks))
    | inr (there n) ↦ elim n [ ]
  ];
  listed = λ j e h. elim (lookup_of_insert k j d e r.tasks h) [
    | inl (p, q) ↦ (mem-append_right r.keys (here (sym p)), ap descriptor_key (sym q) ∙ p)
    | inr (n, o) ↦ (mem-append_left (k ∷ []) (s.listed j e o).0, (s.listed j e o).1)
  ];
}
  where
    k : TaskKey
    k = descriptor_key d

register_all-IsSound :
    (ds : List Descriptor) (r : Registry) {r' : Registry}
    → register_all ds r ≡ ok r'
    → IsSound r
    → IsSound r'
unfolding register_all
register_all-IsSound [] r h s = subst IsSound (ok_inj h) s
register_all-IsSound (d ∷ ds) r h s = elim (Option-cases (lookup (descriptor_key d) r.tasks)) [
  | inl n ↦ register_all-IsSound ds _ (rw (n, register_all) at h) (added-IsSound d r n s)
  | inr (e, t) ↦ absurd (err_ne_ok (rw (t, register_all) at h))
]

register_modules-IsSound :
    (ms : List Module) (r : Registry) {r' : Registry}
    → register_modules ms r ≡ ok r'
    → IsSound r
    → IsSound r'
unfolding register_modules
register_modules-IsSound [] r h s = subst IsSound (ok_inj h) s
register_modules-IsSound (m ∷ ms) r h s = elim (Bool-cases (m.name == "")) [
  | inl t ↦ absurd (err_ne_ok (rw (t, register_modules) at h))
  | inr f ↦ elim (Result-cases (register_all m.descriptors r)) [
    | inl (r'', e) ↦
        register_modules-IsSound ms r'' (rw (f, e, register_modules) at h)
          (register_all-IsSound m.descriptors r e s)
    | inr (x, e) ↦ absurd (err_ne_ok (rw (f, e, register_modules) at h))
  ]
]

-- A registry that NewRegistry returns lists the keys of its tasks, and no others, each once, and
-- every task under its own key: a worker claims exactly what it can execute.
pub new_registry-IsSound :
    (modules : List Module) (r : Registry) → new_registry modules ≡ ok r → IsSound r
unfolding new_registry lookup
new_registry-IsSound modules r h = elim (Result-cases (register_modules modules start)) [
  | inr (x, e) ↦ absurd (err_ne_ok (rw (e, new_registry) at h))
  | inl (r', e) ↦
      (let s = register_modules-IsSound modules start e start-IsSound in
        subst IsSound (ok_inj (rw (e, new_registry) at h)) (sorted r' s))
]
  where
    start : Registry
    start = record { tasks = []; keys = [] }

    start-IsSound : IsSound start
    start-IsSound = record {
      distinct = tt;
      known = λ k m. elim m [ ];
      listed = λ k d e. absurd (none_ne_some e);
    }

    sorted :
        (r' : Registry) → IsSound r' → IsSound (record r' { keys = sort task_key_before r'.keys })
    sorted r' s = record {
      distinct = sort-Pairwise task_key_before ◌≢◌ (λ x y n p. n (sym p)) r'.keys s.distinct;
      known = λ k m. s.known k (mem_of_mem-sort task_key_before r'.keys m);
      listed = λ k d e. (mem-sort task_key_before (s.listed k d e).0, (s.listed k d e).1);
    }

-- A task of the registry comes from one of the modules.
module _ {κ} (P : Descriptor → Type κ) where
  register_all-All :
      (ds : List Descriptor) (r : Registry) {r' : Registry}
      → register_all ds r ≡ ok r'
      → All P ds
      → ((k : TaskKey) (d : Descriptor) → lookup k r.tasks ≡ some d → P d)
      → (k : TaskKey) (d : Descriptor) → lookup k r'.tasks ≡ some d
      → P d
  unfolding register_all
  register_all-All [] r h a old =
      λ k d e. old k d (ap (λ (x : Registry). lookup k x.tasks) (ok_inj h) ∙ e)
  register_all-All (c ∷ ds) r h a old = elim (Option-cases (lookup (descriptor_key c) r.tasks)) [
    | inr (x, t) ↦ absurd (err_ne_ok (rw (t, register_all) at h))
    | inl n ↦ register_all-All ds _ (rw (n, register_all) at h) a.1 λ k d e.
        elim (lookup_of_insert (descriptor_key c) k c d r.tasks e) [
          | inl (p, q) ↦ subst P q a.0
          | inr (ne, o) ↦ old k d o
        ]
  ]

  register_modules-All :
      (ms : List Module) (r : Registry) {r' : Registry}
      → register_modules ms r ≡ ok r'
      → All (λ m. All P m.descriptors) ms
      → ((k : TaskKey) (d : Descriptor) → lookup k r.tasks ≡ some d → P d)
      → (k : TaskKey) (d : Descriptor) → lookup k r'.tasks ≡ some d
      → P d
  unfolding register_modules
  register_modules-All [] r h a old =
      λ k d e. old k d (ap (λ (x : Registry). lookup k x.tasks) (ok_inj h) ∙ e)
  register_modules-All (m ∷ ms) r h a old = elim (Bool-cases (m.name == "")) [
    | inl t ↦ absurd (err_ne_ok (rw (t, register_modules) at h))
    | inr f ↦ elim (Result-cases (register_all m.descriptors r)) [
      | inl (r'', e) ↦
          register_modules-All ms r'' (rw (f, e, register_modules) at h) a.1
            (register_all-All m.descriptors r e a.0 old)
      | inr (x, e) ↦ absurd (err_ne_ok (rw (f, e, register_modules) at h))
    ]
  ]

  pub new_registry-All :
      (modules : List Module) (r : Registry)
      → new_registry modules ≡ ok r
      → All (λ m. All P m.descriptors) modules
      → (k : TaskKey) (d : Descriptor) → lookup k r.tasks ≡ some d
      → P d
  unfolding new_registry lookup
  new_registry-All modules r h a k d e =
      elim (Result-cases (register_modules modules (record { tasks = []; keys = [] }))) [
        | inr (x, q) ↦ absurd (err_ne_ok (rw (q, new_registry) at h))
        | inl (r', q) ↦
            register_modules-All modules (record { tasks = []; keys = [] }) q a
              (λ j c o. absurd (none_ne_some o)) k d
              (ap (λ (x : Registry). lookup k x.tasks) (ok_inj (rw (q, new_registry) at h)) ∙ e)
      ]
