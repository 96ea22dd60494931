-- ===== src/Redis/Assigned.antt =====
-- The tries of watch (execution/redis/store.go) with an operation that assigns to the caller's variable.
use ody.Redis.Tries.{Plan-cases, Answer-cases}
use ody.Redis.Watch.{watch_with}
use ody.Redis.{Server, Key, Plan, Command}
use ody.Base.{List, ℕ, suc, inl, inr, zero}

module _ {R : Type 0} (server : Server R) where
  -- What holds of the caller's variable and of the server before the tries, after each, and after a
  -- transaction, holds at the end.
  pub watch_with_inv :
      {A C : Type 0} (P : C → R → Type 0) (keys : List Key) (n : ℕ)
      (operation : ℕ → C → R → Plan A × C) (c : C) (s : R)
      → ((k : ℕ) (c : C) (s : R) → P c s → P (operation k c s).1 s)
      → ((c : C) (s : R) (commands : List Command) → P c s → P c (server.exec keys commands s).1)
      → P c s
      → P (watch_with server keys n operation c s).1 (watch_with server keys n operation c s).2
  unfolding watch_with
  watch_with_inv P keys zero operation c s step sent h = h
  watch_with_inv {A} P keys (suc n) operation c s step sent h =
      let after = step n c s h in
      elim (Plan-cases (operation n c s).0) [
        | inl (e, p) ↦ rw (p, watch_with) after
        | inr (inl p) ↦ rw (p, watch_with) after
        | inr (inr (inl (id, p))) ↦ rw (p, watch_with) after
        | inr (inr (inr (a, commands, p))) ↦
            (let answered = sent (operation n c s).1 s commands after in
              elim (Answer-cases (server.exec keys commands s).0) [
                | inl f ↦ rw (p, f, watch_with) answered
                | inr (inl f) ↦
                    rw (p, f, watch_with)
                      (watch_with_inv P keys n operation (operation n c s).1 _ step sent answered)
                | inr (inr (e, f)) ↦ rw (p, f, watch_with) answered
              ])
      ]
