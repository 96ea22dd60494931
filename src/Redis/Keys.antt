-- ===== src/Redis/Keys.antt =====
-- The keyspace of the Redis store (execution/redis/keys.go): keys of different kinds do not collide.
use Prim.Native.String
use Prim.Native.String.append
use Prim.Native.Char.{code}
use text.Mathlib.TextLemmas.{append_cancel_left}
use ody.Base.{
  ◌≡◌, ◌≢◌, ap, sym, ◌∙◌, refl, Bool, true, false, if◌then◌else◌, ◌==◌, nat_eq, String, List, ◌∷◌,
  [], Member, here, there, Bool-cases, inl, inr, ◌⊎◌, nat_beq_iff, ◌&&◌, arith,
}
use ody.Redis.{
  Kind, kind_text, Key, key_text, of_execution, of_events, of_executions, of_leases,
  of_execution_counts, of_pipeline_counts, of_queue, of_task, of_status, of_idempotency, of_node,
  of_run_executions, of_pipeline, of_runs, of_pipeline_idempotency, of_run_status,
}

-- Whether two texts differ at a place that both have.
unfoldable diverges : String → String → Bool
diverges String.[] t = false
diverges (String.◌∷◌ c s) String.[] = false
diverges (String.◌∷◌ c s) (String.◌∷◌ d t) =
    let rest = diverges s t in if code c == code d then rest else true

diverges-append : (s t x y : String) → diverges s t ≡ true → String.◌++◌ s x ≢ String.◌++◌ t y
unfolding diverges
diverges-append String.[] t x y h p = cc
diverges-append (String.◌∷◌ c s) String.[] x y h p = cc
diverges-append (String.◌∷◌ c s) (String.◌∷◌ d t) x y h p =
    let q : String.◌∷◌ c (String.◌++◌ s x) ≡ String.◌∷◌ d (String.◌++◌ t y) =
      sym (append.cons c s x) ∙ p ∙ append.cons d t y in
    elim (Bool-cases (code c == code d)) [
      | inl e ↦ diverges-append s t x y (rw (e, diverges) at h) (cc q)
      | inr n ↦ (let y = (nat_beq_iff (code c) (code d)).1 (cc q) in cc (y, n))
    ]

and_true : (a b : Bool) → (a && b) ≡ true → (a ≡ true) × (b ≡ true)
and_true a b h = ground arith

abbrev kinds : List Kind
kinds =
    of_execution ∷ of_events ∷ of_executions ∷ of_leases ∷ of_execution_counts ∷ of_pipeline_counts
    ∷ of_queue ∷ of_task ∷ of_status ∷ of_idempotency ∷ of_node ∷ of_run_executions ∷ of_pipeline
    ∷ of_runs ∷ of_pipeline_idempotency ∷ of_run_status ∷ []

kinds_complete : (k : Kind) → Member k kinds
kinds_complete of_execution = here refl
kinds_complete of_events = there (here refl)
kinds_complete of_executions = there (there (here refl))
kinds_complete of_leases = there (there (there (here refl)))
kinds_complete of_execution_counts = there (there (there (there (here refl))))
kinds_complete of_pipeline_counts = there (there (there (there (there (here refl)))))
kinds_complete of_queue = there (there (there (there (there (there (here refl))))))
kinds_complete of_task = there (there (there (there (there (there (there (here refl)))))))
kinds_complete of_status = there (there (there (there (there (there (there (there (here refl))))))))
kinds_complete of_idempotency =
    there (there (there (there (there (there (there (there (there (here refl)))))))))
kinds_complete of_node =
    there (there (there (there (there (there (there (there (there (there (here refl))))))))))
kinds_complete of_run_executions =
    there
      (there (there (there (there (there (there (there (there (there (there (here refl)))))))))))
kinds_complete of_pipeline = there (
    there
      (there (there (there (there (there (there (there (there (there (there (here refl))))))))))))
kinds_complete of_runs = there (
    there (
      there (
        there (there (there (there (there (there (there (there (there (there (here refl)))))))))))))
kinds_complete of_pipeline_idempotency = there (
    there (
      there (
        there (
          there
            (there (there (there (there (there (there (there (there (there (here refl))))))))))))))
kinds_complete of_run_status = there (
    there (
      there (
        there (
          there (
            there (
              there
                (there (there (there (there (there (there (there (there (here refl)))))))))))))))

abbrev apart : Kind → Kind → Bool
apart k j = diverges (kind_text k) (kind_text j)

unfoldable apart_from : Kind → List Kind → Bool
apart_from k [] = true
apart_from k (j ∷ js) = apart k j && apart_from k js

unfoldable all_apart : List Kind → Bool
unfolding apart_from
all_apart [] = true
all_apart (k ∷ ks) = apart_from k ks && all_apart ks

prefix_free : all_apart kinds ≡ true
unfolding diverges kind_text all_apart apart_from
prefix_free = refl

apart_from-mem :
    (k : Kind) {j : Kind} (ks : List Kind) → Member j ks → apart_from k ks ≡ true → apart k j ≡ true
unfolding apart_from
apart_from-mem k [] m h = elim m [ ]
apart_from-mem k (i ∷ ks) (here e) h = rw e ((and_true _ _ h).0)
apart_from-mem k (i ∷ ks) (there m) h = apart_from-mem k ks m (and_true _ _ h).1

all_apart-mem :
    {k j : Kind} (ks : List Kind)
    → Member k ks
    → Member j ks
    → all_apart ks ≡ true
    → (k ≡ j) ⊎ ((apart k j ≡ true) ⊎ (apart j k ≡ true))
unfolding all_apart
all_apart-mem [] m n h = elim m [ ]
all_apart-mem (i ∷ ks) (here e) (here f) h = inl (e ∙ sym f)
all_apart-mem (i ∷ ks) (here e) (there m) h =
    inr (inl (rw e (apart_from-mem i ks m (and_true _ _ h).0)))
all_apart-mem (i ∷ ks) (there m) (here f) h =
    inr (inr (rw f (apart_from-mem i ks m (and_true _ _ h).0)))
all_apart-mem (i ∷ ks) (there m) (there n) h = all_apart-mem ks m n (and_true _ _ h).1

-- Two keys that have the same text in the keyspace of a store have the same kind and the same argument.
pub key_text-injective :
    (prefix : String) (k j : Key) → key_text prefix k ≡ key_text prefix j → k ≡ j
unfolding key_text
key_text-injective prefix k j h =
    let p = append_cancel_left prefix _ _ h in
    elim (all_apart-mem kinds (kinds_complete k.kind) (kinds_complete j.kind) prefix_free) [
      | inl e ↦ λ i. record {
        kind = e i;
        argument =
            append_cancel_left (kind_text k.kind) k.argument j.argument
              (p ∙ ap (λ x. String.◌++◌ (kind_text x) j.argument) (sym e)) i;
      }
      | inr (inl d) ↦
          absurd (diverges-append (kind_text k.kind) (kind_text j.kind) k.argument j.argument d p)
      | inr (inr d) ↦
          absurd
            (diverges-append (kind_text j.kind) (kind_text k.kind) j.argument k.argument d (sym p))
    ]
