-- ===== src/Memory/Valid/Loop.antt =====
-- Loops over the executions: what holds of the store between two turns.
use ody.Base.{
  arith, String, ◌≡◌, refl, ◌∙◌, some, ◌∷◌, Map, ne_of_mem, lookup-insert_ne, lookup, Member, here,
  there, Distinct, lookup_of_mem, nat_eq,
}
use ody.Execution.{Uuid, Execution, EventType}
use ody.Memory.{MemoryStore, after_now, commit}
use ody.Memory.Valid.{IsConsistent, SameIdentity, IsValid}
use ody.Memory.Valid.Update.{commit-IsValid, frame-IsValid}

-- Reading the clock changes nothing that is looked at.
pub after_now-IsValid : (s : MemoryStore) → IsValid s → IsValid (after_now s)
after_now-IsValid s v = frame-IsValid s _ _ _ _ _ (omega arith) v

-- In a loop over the executions: the entries to come are still stored as the loop will read them.
pub record InLoop (m : Map Uuid Execution) (s : MemoryStore) : Type 0 where
  pub apart : Distinct m
  pub agrees : (id : Uuid) (e : Execution) → Member (id, e) m → lookup id s.executions ≡ some e
  pub valid : IsValid s

-- A turn that writes the loop's own entry, or nothing.
pub InLoop-commit :
    (id : Uuid) (e f : Execution) (m : Map Uuid Execution) (s : MemoryStore) (kind : EventType)
    (text : String)
    → SameIdentity e f
    → (IsConsistent e → IsConsistent f)
    → InLoop ((id, e) ∷ m) s
    → InLoop m (commit s id f kind text)
unfolding Distinct
InLoop-commit id e f m s kind text same c l = record {
  apart = l.apart.1;
  agrees = λ j x n.
      unfold commit in
      lookup-insert_ne id j f s.executions (ne_of_mem id j e x m l.apart n)
      ∙ l.agrees j x (there n);
  valid =
      let at = l.agrees id e (here refl) in
      commit-IsValid s id e f kind text at same (c (l.valid.consistent id e at)) l.valid;
}

pub InLoop-skip :
    (id : Uuid) (e : Execution) (m : Map Uuid Execution) (s : MemoryStore)
    → InLoop ((id, e) ∷ m) s
    → InLoop m s
unfolding Distinct
InLoop-skip id e m s l = record {
  apart = l.apart.1;
  agrees = λ j x n. l.agrees j x (there n);
  valid = l.valid;
}

pub InLoop-start : (s : MemoryStore) → IsValid s → InLoop s.executions s
InLoop-start s v = record {
  apart = v.distinct;
  agrees = λ id e n. lookup_of_mem id e s.executions v.distinct n;
  valid = v;
}
