-- ===== src/Redis/Tries.antt =====
-- The tries of watch (execution/redis/store.go): how many there are, and how they end.
use ody.Execution.{Result, Error, err, ok, message, Uuid, err_ne_ok, ok_inj}
use ody.Base.{List, ℕ, suc, ◌≡◌, zero, refl, ◌⊎◌, inl, inr, ◌≢◌, ap, sym, ◌∙◌, subst}
use ody.Redis.Watch.{watch}
use ody.Redis.{
  done, abort, skip, exists, send, unavailable, existing, committed, tx_failed, broken, Server, Key,
  Plan, Command, Ended, Answer,
}

pub Plan-cases :
    {A : Type 0} (p : Plan A)
    → ((e : Error) × (p ≡ abort e))
      ⊎ ((p ≡ skip)
          ⊎ (((id : Uuid) × (p ≡ exists id))
              ⊎ ((a : A) × (commands : List Command) × (p ≡ send a commands))))
Plan-cases (abort e) = inl (e, refl)
Plan-cases skip = inr (inl refl)
Plan-cases (exists id) = inr (inr (inl (id, refl)))
Plan-cases (send a commands) = inr (inr (inr (a, commands, refl)))

pub Answer-cases :
    (a : Answer) → (a ≡ committed) ⊎ ((a ≡ tx_failed) ⊎ ((e : Error) × (a ≡ broken e)))
Answer-cases committed = inl refl
Answer-cases tx_failed = inr (inl refl)
Answer-cases (broken e) = inr (inr (e, refl))

pub abort_ne_send :
    {A : Type 0} {e : Error} {a : A} {commands : List Command} → abort e ≢ send a commands
abort_ne_send h = cc

pub exists_ne_send :
    {A : Type 0} {id : Uuid} {a : A} {commands : List Command} → exists id ≢ send a commands
exists_ne_send h = cc

pub send_inj : {A : Type 0} {a b : A} {c d : List Command} → send a c ≡ send b d → (a ≡ b) × (c ≡ d)
send_inj h = (cc, cc)

pub done_inj : {A : Type 0} {a b : A} → done a ≡ done b → a ≡ b
done_inj h = cc

pub unavailable_ne_done :
    {A : Type 0} {a : A} → ◌≢◌ {A = Result (Ended A)} (ok unavailable) (ok (done a))
unavailable_ne_done h = cc

pub existing_ne_done :
    {A : Type 0} {id : Uuid} {a : A} → ◌≢◌ {A = Result (Ended A)} (ok (existing id)) (ok (done a))
existing_ne_done h = cc

-- What watch returns where nothing was sent.
pub not_sent :
    {R A : Type 0} {r : Result (Ended A)} {s s' : R} {sent : A}
    → (r ≢ ok (done sent))
    → ◌≡◌ {A = Result (Ended A) × R} (r, s) (ok (done sent), s')
    → ⊥
not_sent n h = n (ap (λ r. r.0) h)

existing_inj : {A : Type 0} {a b : Uuid} → ◌≡◌ {A = Ended A} (existing a) (existing b) → a ≡ b
existing_inj h = cc

unavailable_ne_existing :
    {A : Type 0} {id : Uuid} → ◌≢◌ {A = Result (Ended A)} (ok unavailable) (ok (existing id))
unavailable_ne_existing h = cc

-- One state after another: by transactions and commands that the server was sent, with what other
-- clients did, until the second is reached.
pub data Reaches {R : Type 0} (server : Server R) : R → R → Type 0 where
  stay : {s : R} → Reaches server s s
  by_exec :
      {s t : R} (keys : List Key) (commands : List Command)
      → Reaches server (server.exec keys commands s).1 t
      → Reaches server s t
  by_command :
      {s t : R} (command : Command)
      → Reaches server (server.command command s).1 t
      → Reaches server s t

-- What is left of the tries and the state, after tries that were refused because a watched key changed.
pub data Refused {R A : Type 0} (server : Server R) (keys : List Key) (operation : ℕ → R → Plan A)
    : ℕ → R → ℕ → R → Type 0 where
  none_yet : {n : ℕ} {s : R} → Refused server keys operation n s n s
  refused_one :
      {n m : ℕ} {s s' s'' : R} {a : A} {commands : List Command}
      → operation n s ≡ send a commands
      → server.exec keys commands s ≡ (tx_failed, s')
      → Refused server keys operation n s' m s''
      → Refused server keys operation (suc n) s m s''

-- How a try that is not refused ends: by what it planned, or by what EXEC answers.
pub data IsEnd {R A : Type 0} (server : Server R) (keys : List Key) (s : R)
    : Plan A → Result (Ended A) × R → Type 0 where
  aborted : {e : Error} → IsEnd server keys s (abort e) (err e, s)
  skipped : IsEnd server keys s skip (ok unavailable, s)
  found : {id : Uuid} → IsEnd server keys s (exists id) (ok (existing id), s)
  executed :
      {a : A} {commands : List Command} {s' : R}
      → server.exec keys commands s ≡ (committed, s')
      → IsEnd server keys s (send a commands) (ok (done a), s')
  failed :
      {a : A} {commands : List Command} {s' : R} {e : Error}
      → server.exec keys commands s ≡ (broken e, s')
      → IsEnd server keys s (send a commands) (err e, s')

module _ {R : Type 0} (server : Server R) where
  -- The end of a call of watch: after refused tries, that of a try which was not refused, or the error
  -- after all were refused.
  pub data IsWatched {A : Type 0} (keys : List Key) (operation : ℕ → R → Plan A) (n : ℕ) (s : R)
      (r : Result (Ended A) × R) : Type 0 where
    ended :
        (m : ℕ) (s' : R)
        → Refused server keys operation n s (suc m) s'
        → IsEnd server keys s' (operation m s') r
        → IsWatched keys operation n s r
    contended :
        (s' : R)
        → Refused server keys operation n s 0 s'
        → r ≡ (err (message "redis transaction contention limit exceeded"), s')
        → IsWatched keys operation n s r

  refused_first :
      {A : Type 0} {keys : List Key} {operation : ℕ → R → Plan A} {n : ℕ} {s s' : R} {a : A}
      {commands : List Command} {r : Result (Ended A) × R}
      → operation n s ≡ send a commands
      → server.exec keys commands s ≡ (tx_failed, s')
      → IsWatched keys operation n s' r
      → IsWatched keys operation (suc n) s r
  refused_first p f (ended m t refused e) = ended m t (refused_one p f refused) e
  refused_first p f (contended t refused e) = contended t (refused_one p f refused) e

  -- A call of watch with `n` tries left ends: either fewer than `n` of its transactions were refused
  -- because another client changed a watched key, and the call ends as the first try that was not
  -- refused, or all `n` were, and it returns the error of contention.
  pub watch-IsWatched :
      {A : Type 0} (keys : List Key) (operation : ℕ → R → Plan A) (n : ℕ) (s : R)
      → IsWatched keys operation n s (watch server keys n operation s)
  unfolding watch
  watch-IsWatched keys operation zero s = contended s none_yet refl
  watch-IsWatched keys operation (suc n) s = elim (Plan-cases (operation n s)) [
    | inl (e, p) ↦ rw (p, watch) (ended n s none_yet (rw p aborted))
    | inr (inl p) ↦ rw (p, watch) (ended n s none_yet (rw p skipped))
    | inr (inr (inl (id, p))) ↦ rw (p, watch) (ended n s none_yet (rw p found))
    | inr (inr (inr (a, commands, p))) ↦ elim (Answer-cases (server.exec keys commands s).0) [
      | inl f ↦
          rw (p, f, watch)
            (ended n s none_yet (rw p (executed (λ i. (f i, (server.exec keys commands s).1)))))
      | inr (inr (e, f)) ↦
          rw (p, f, watch)
            (ended n s none_yet (rw p (failed (λ i. (f i, (server.exec keys commands s).1)))))
      | inr (inl f) ↦
          rw (p, f, watch)
            (refused_first p (λ i. (f i, (server.exec keys commands s).1))
              (watch-IsWatched keys operation n (server.exec keys commands s).1))
    ]
  ]

  pub Reaches-trans : {s t u : R} → Reaches server s t → Reaches server t u → Reaches server s u
  Reaches-trans stay q = q
  Reaches-trans (by_exec keys commands p) q = by_exec keys commands (Reaches-trans p q)
  Reaches-trans (by_command command p) q = by_command command (Reaches-trans p q)

  Refused-Reaches :
      {A : Type 0} {keys : List Key} {operation : ℕ → R → Plan A} {n m : ℕ} {s s' : R}
      → Refused server keys operation n s m s'
      → Reaches server s s'
  Refused-Reaches none_yet = stay
  Refused-Reaches {keys = keys} {s' = s'} (refused_one {commands = commands} p f rest) =
      by_exec keys commands
        (subst (λ x. Reaches server x s') (sym (ap (λ r. r.1) f)) (Refused-Reaches rest))

  IsEnd-Reaches :
      {A : Type 0} {keys : List Key} {s : R} {p : Plan A} {r : Result (Ended A) × R}
      → IsEnd server keys s p r
      → Reaches server s r.1
  IsEnd-Reaches aborted = stay
  IsEnd-Reaches skipped = stay
  IsEnd-Reaches found = stay
  IsEnd-Reaches {keys = keys} (executed {commands = commands} {s' = s'} f) =
      by_exec keys commands (subst (λ x. Reaches server x s') (sym (ap (λ r. r.1) f)) stay)
  IsEnd-Reaches {keys = keys} (failed {commands = commands} {s' = s'} f) =
      by_exec keys commands (subst (λ x. Reaches server x s') (sym (ap (λ r. r.1) f)) stay)

  pub watch-Reaches :
      {A : Type 0} (keys : List Key) (operation : ℕ → R → Plan A) (n : ℕ) (s : R)
      → Reaches server s (watch server keys n operation s).1
  watch-Reaches keys operation n s = elim (watch-IsWatched keys operation n s) [
    | ended m t refused e ↦ Reaches-trans (Refused-Reaches refused) (IsEnd-Reaches e)
    | contended t refused e ↦
        subst (Reaches server s) (sym (ap (λ r. r.1) e)) (Refused-Reaches refused)
  ]

  -- A try that is done has committed what it planned.
  IsEnd-done :
      {A : Type 0} {keys : List Key} {t : R} {p : Plan A} {r : Result (Ended A) × R} {a : A}
      {s' : R}
      → IsEnd server keys t p r
      → r ≡ (ok (done a), s')
      → (commands : List Command) × (p ≡ send a commands)
        × (server.exec keys commands t ≡ (committed, s'))
  IsEnd-done aborted h = absurd (not_sent err_ne_ok h)
  IsEnd-done skipped h = absurd (not_sent unavailable_ne_done h)
  IsEnd-done found h = absurd (not_sent existing_ne_done h)
  IsEnd-done (failed f) h = absurd (not_sent err_ne_ok h)
  IsEnd-done (executed {commands = commands} f) h = (
    commands,
    ap (λ x. send x commands) (done_inj (ok_inj (ap (λ r. r.0) h))),
    f ∙ ap (λ r. (committed, r.1)) h,
  )

  -- A call that is done has committed what one of its tries planned, in a state that it reached.
  pub watch-reached :
      {A : Type 0} (keys : List Key) (operation : ℕ → R → Plan A) (n : ℕ) (s : R) (a : A) (s' : R)
      → watch server keys n operation s ≡ (ok (done a), s')
      → (m : ℕ) × (t : R) × (commands : List Command) × Reaches server s t
        × (operation m t ≡ send a commands)
        × (server.exec keys commands t ≡ (committed, s'))
  watch-reached keys operation n s a s' h = elim (watch-IsWatched keys operation n s) [
    | contended t refused e ↦ absurd (not_sent err_ne_ok (sym e ∙ h))
    | ended m t refused e ↦
        (let (commands, p, f) = IsEnd-done e h in (m, t, commands, Refused-Reaches refused, p, f))
  ]

  pub watch-done :
      {A : Type 0} (keys : List Key) (operation : ℕ → R → Plan A) (n : ℕ) (s : R) (a : A) (s' : R)
      → watch server keys n operation s ≡ (ok (done a), s')
      → (m : ℕ) × (t : R) × (commands : List Command) × (operation m t ≡ send a commands)
        × (server.exec keys commands t ≡ (committed, s'))
  watch-done keys operation n s a s' h =
      let (m, t, commands, reached, p, f) = watch-reached keys operation n s a s' h in
      (m, t, commands, p, f)

  IsEnd-existing :
      {A : Type 0} {keys : List Key} {t : R} {p : Plan A} {r : Result (Ended A) × R} {id : Uuid}
      {s' : R}
      → IsEnd server keys t p r
      → r ≡ (ok (existing id), s')
      → (p ≡ exists id) × (t ≡ s')
  IsEnd-existing aborted h = absurd (err_ne_ok (ap (λ r. r.0) h))
  IsEnd-existing skipped h = absurd (unavailable_ne_existing (ap (λ r. r.0) h))
  IsEnd-existing found h = (ap exists (existing_inj (ok_inj (ap (λ r. r.0) h))), ap (λ r. r.1) h)
  IsEnd-existing (failed f) h = absurd (err_ne_ok (ap (λ r. r.0) h))
  IsEnd-existing (executed f) h = absurd (existing_ne_done (sym (ap (λ r. r.0) h)))

  -- A call that finds an existing record has found it in the state in which it ends.
  pub watch-existing :
      {A : Type 0} (keys : List Key) (operation : ℕ → R → Plan A) (n : ℕ) (s : R) (id : Uuid)
      (s' : R)
      → watch server keys n operation s ≡ (ok (existing id), s')
      → (m : ℕ) × (operation m s' ≡ exists id)
  watch-existing keys operation n s id s' h = elim (watch-IsWatched keys operation n s) [
    | contended t refused e ↦ absurd (err_ne_ok (ap (λ r. r.0) (sym e ∙ h)))
    | ended m t refused e ↦
        (let (p, q) = IsEnd-existing e h in (m, subst (λ x. operation m x ≡ exists id) q p))
  ]
