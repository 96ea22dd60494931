-- ===== src/Redis/Loaded.antt =====
-- The states that loadDueCandidates (execution/redis/store.go) goes through.
use ody.Execution.Errors.{is_not_found}
use ody.Redis.Read.{get_execution}
use ody.Redis.Encoding.{score}
use ody.Redis.Tries.{Reaches, stay, Reaches-trans, by_command}
use ody.Execution.{Uuid, Time, Execution, Result-cases}
use ody.Redis.Claim.{load_members, load_queues, heads}
use ody.Redis.{Server, Codec, queue_key, zrem}
use ody.Base.{List, String, Map, ℕ, ◌∷◌, inr, inl, some, insert, Bool-cases, [], nat_eq}

module _ {R : Type 0} (server : Server R) (codec : Codec) where
  load_members-Reaches :
      (name : String) (members : List String) (found : Map Uuid Execution) (s : R)
      → Reaches server s (load_members server codec name members found s).1
  unfolding load_members
  load_members-Reaches name [] found s = stay
  load_members-Reaches name (value ∷ members) found s =
      elim (Result-cases (codec.parse_uuid value)) [
        | inr (e, p) ↦ rw (p, load_members) stay
        | inl (id, p) ↦ elim (Result-cases (get_execution server codec id s)) [
          | inl (item, g) ↦
              rw (p, g, load_members) (load_members-Reaches name members (insert id item found) s)
          | inr (e, g) ↦ elim (Bool-cases (is_not_found e)) [
            | inr n ↦ rw (p, g, n, load_members) stay
            | inl y ↦
                rw (p, g, y, load_members)
                  (by_command (zrem (queue_key codec name) value)
                    (load_members-Reaches name members found _))
          ]
        ]
      ]

  pub load_queues-Reaches :
      (names : List String) (limit : ℕ) (at : Time) (found : Map Uuid Execution) (s : R)
      → Reaches server s (load_queues server codec names limit at found s).1
  unfolding load_queues
  load_queues-Reaches [] limit at found s = stay
  load_queues-Reaches (name ∷ names) limit at found s =
      elim (Result-cases
        (server.zrange_by_score (queue_key codec name) (score at) (some (heads limit)) s)) [
          | inr (e, z) ↦ rw (z, load_queues) stay
          | inl (members, z) ↦
              (let l = load_members-Reaches name members found s in
                elim (Result-cases (load_members server codec name members found s).0) [
                  | inr (e, q) ↦ rw (z, q, load_queues) l
                  | inl (found', q) ↦
                      rw (z, q, load_queues)
                        (Reaches-trans server l (load_queues-Reaches names limit at found' _))
                ])
        ]
