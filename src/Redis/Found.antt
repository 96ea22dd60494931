-- ===== src/Redis/Found.antt =====
-- What looking up the references of a request (execution/redis/store.go) finds.
use ody.Execution.{Uuid, ok, Result, Result-cases, err_ne_ok, ok_inj}
use ody.Redis.Creation.{find_reference}
use ody.Redis.{Server, Key, Codec}
use ody.Base.{
  List, ◌≡◌, String, none, Member, some, All, ◌≢◌, ◌∷◌, Option, inr, inl, Option-cases, ◌∙◌, there,
  ap, here, some_inj, [], refl,
}

module _ {R : Type 0} (server : Server R) where
  abbrev pub IsUnset : R → Key → Type 0
  IsUnset state key = server.get key state ≡ ok none

  module _ (codec : Codec) where
    pub find_reference-none :
        (keys : List Key) (state : R)
        → find_reference server codec keys state ≡ ok none
        → All (IsUnset state) keys
    unfolding find_reference
    find_reference-none [] state h = tt
    find_reference-none (key ∷ keys) state h = elim (Result-cases (server.get key state)) [
      | inr (e, g) ↦ absurd (err_ne_ok (rw (g, find_reference) at h))
      | inl (o, g) ↦ elim (Option-cases o) [
        | inl z ↦ (g ∙ ap ok z, find_reference-none keys state (rw (g, z, find_reference) at h))
        | inr (value, z) ↦ elim (Result-cases (codec.parse_uuid value)) [
          | inr (e, p) ↦ absurd (err_ne_ok (rw (g, z, p, find_reference) at h))
          | inl (id, p) ↦ absurd (some_ne_none (rw (g, z, p, find_reference) at h))
        ]
      ]
    ]
      where
        some_ne_none : {id : Uuid} → ◌≢◌ {A = Result (Option Uuid)} (ok (some id)) (ok none)
        some_ne_none q = cc

    -- The execution that one of the keys names.
    pub record IsNamed (keys : List Key) (state : R) (id : Uuid) : Type 0 where
      pub key : Key
      pub value : String
      pub member : Member key keys
      pub read : server.get key state ≡ ok (some value)
      pub parsed : codec.parse_uuid value ≡ ok id

    pub find_reference-some :
        (keys : List Key) (state : R) (id : Uuid)
        → find_reference server codec keys state ≡ ok (some id)
        → IsNamed keys state id
    unfolding find_reference
    find_reference-some [] state id h = absurd (none_ne_some h)
      where
        none_ne_some : ◌≢◌ {A = Result (Option Uuid)} (ok none) (ok (some id))
        none_ne_some q = cc
    find_reference-some (key ∷ keys) state id h = elim (Result-cases (server.get key state)) [
      | inr (e, g) ↦ absurd (err_ne_ok (rw (g, find_reference) at h))
      | inl (o, g) ↦ elim (Option-cases o) [
        | inl z ↦
            (let n = find_reference-some keys state id (rw (g, z, find_reference) at h) in
              record {
                key = n.key;
                value = n.value;
                member = there n.member;
                read = n.read;
                parsed = n.parsed;
              })
        | inr (value, z) ↦ elim (Result-cases (codec.parse_uuid value)) [
          | inr (e, p) ↦ absurd (err_ne_ok (rw (g, z, p, find_reference) at h))
          | inl (found, p) ↦ record {
            key = key;
            value = value;
            member = here refl;
            read = g ∙ ap ok z;
            parsed = p ∙ ap ok (some_inj (ok_inj (rw (g, z, p, find_reference) at h)));
          }
        ]
      ]
    ]
