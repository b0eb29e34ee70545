-- ===== src/Container/Specification.antt =====
-- The container specification, <container name>.<device UUID>.
use tjtools.Common.{
  ◌↔◌, ℕ, zero, suc, ◌≡◌, ◌≢◌, refl, ap, false, [], ◌∷◌, ◌++◌, none, some, Bytes, All, take, drop,
  length, take-append, arith, Option-cases, inl, inr,
}
use tjtools.Common.Result.{ok, err}
use tjtools.Container.{malformed_spec, empty, find, parse_spec}

abbrev NoDot : Bytes → Type 0
NoDot = All (λ c. c ≢ b'.')

-- The grammar: a name and a UUID that are not empty, divided by the first dot.
pub record IsSpec (spec name uuid : Bytes) : Type 0 where
  pub splits : spec ≡ name ++ b'.' ∷ uuid
  pub no_dot : NoDot name
  pub name_given : empty name ≡ false
  pub uuid_given : empty uuid ≡ false

find-append :
    (name uuid : Bytes) → NoDot name → find b'.' (name ++ b'.' ∷ uuid) ≡ some (length name)
unfolding find
find-append [] uuid h = ground arith
find-append (c ∷ name) uuid h = ground (arith, find-append name uuid h.1)

drop_past : (name uuid : Bytes) → drop (suc (length name)) (name ++ b'.' ∷ uuid) ≡ uuid
drop_past [] uuid = refl
drop_past (c ∷ name) uuid = drop_past name uuid

find_absent : (spec : Bytes) → find b'.' spec ≡ none → NoDot spec
unfolding find
find_absent [] h = tt
find_absent (c ∷ spec) h = (ground arith, find_absent spec (ground arith))

find_place :
    (spec : Bytes) (pos : ℕ)
    → find b'.' spec ≡ some pos
    → (spec ≡ take pos spec ++ b'.' ∷ drop (suc pos) spec) × NoDot (take pos spec)
unfolding find
find_place [] pos h = absurd (ground arith)
find_place (c ∷ spec) zero h = (ground arith, tt)
find_place (c ∷ spec) (suc pos) h =
    let later = find_place spec pos (ground arith) in (ap (◌∷◌ c) later.0, (ground arith, later.1))

parse_spec-joined :
    (name uuid : Bytes)
    → NoDot name
    → empty name ≡ false
    → empty uuid ≡ false
    → parse_spec (name ++ b'.' ∷ uuid) ≡ ok (name, uuid)
unfolding parse_spec
parse_spec-joined name uuid d n u =
    rw (find-append name uuid d, take-append name (b'.' ∷ uuid), drop_past name uuid, n, u)

found-IsSpec :
    (spec name uuid : Bytes) (pos : ℕ)
    → find b'.' spec ≡ some pos
    → parse_spec spec ≡ ok (name, uuid)
    → IsSpec spec name uuid
unfolding parse_spec
found-IsSpec spec name uuid pos f e = record {
  splits = ground (arith, find_place spec pos f);
  no_dot = ground (arith, find_place spec pos f);
  name_given = ground arith;
  uuid_given = ground arith;
}

parse_spec_malformed : (spec : Bytes) → find b'.' spec ≡ none → parse_spec spec ≡ err malformed_spec
unfolding parse_spec
parse_spec_malformed spec n = ground arith

-- A specification is taken apart exactly as the grammar says: the name and the UUID are returned if
-- and only if it is the name, which has no dot, the first dot and the UUID, both not empty.
pub parse_spec_iff :
    (spec name uuid : Bytes) → IsSpec spec name uuid ↔ (parse_spec spec ≡ ok (name, uuid))
parse_spec_iff spec name uuid = (there, back)
  where
    there : IsSpec spec name uuid → parse_spec spec ≡ ok (name, uuid)
    there s = rw s.splits (parse_spec-joined name uuid s.no_dot s.name_given s.uuid_given)

    back : parse_spec spec ≡ ok (name, uuid) → IsSpec spec name uuid
    back e = elim (Option-cases (find b'.' spec)) [
      | inl n ↦ absurd (ground (arith, parse_spec_malformed spec n))
      | inr (pos, f) ↦ found-IsSpec spec name uuid pos f e
    ]
