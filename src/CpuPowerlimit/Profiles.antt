-- ===== src/CpuPowerlimit/Profiles.antt =====
-- The profiles of the configuration.
use tjtools.Common.{
  ◌≡◌, refl, Bool, true, false, ◌||◌, List, [], ◌∷◌, some, Bytes, codes, arith, ◌⊎◌, inl, inr,
  subst, equal, equal_iff, Bool-cases,
}
use tjtools.Common.Result.{Result, ok, err, ◌>>=◌, ◌>>◌, guard, or_throw}
use tjtools.CpuPowerlimit.{
  LimitProfile, RawProfile, LimitConfig, LimitError, ConfigFile, lookup, emplace, parse,
  read_profiles, read, no_config, config_denied, bad_json, no_default,
}

-- Does the list hold a profile of this name?
abbrev pub IsListed {ℓ} : {A : Type ℓ} → Bytes → List (Bytes × A) → Type ℓ
IsListed {A} name profiles = (a : A) × (lookup name profiles ≡ some a)

lookup-emplace :
    {A : Type 0} (name : Bytes) (a : A) (profiles : List (Bytes × A))
    → IsListed name (emplace name a profiles)
unfolding lookup emplace
lookup-emplace name a [] = (a, rw ((equal_iff name name).1 refl))
lookup-emplace name a ((n, b) ∷ rest) = elim (Bool-cases (equal n name)) [
  | inl e ↦ (b, ground (arith, e))
  | inr e ↦
      rw (e, emplace)
        ((lookup-emplace name a rest).0, rw (e, lookup) (lookup-emplace name a rest).1)
]

-- What is listed stays, with its profile.
emplace-keeps :
    {A : Type 0} (name other : Bytes) (a b : A) (profiles : List (Bytes × A))
    → lookup name profiles ≡ some b
    → lookup name (emplace other a profiles) ≡ some b
unfolding lookup emplace
emplace-keeps name other a b [] h = absurd (ground arith)
emplace-keeps name other a b ((n, c) ∷ rest) h = ground (arith, emplace-keeps name other a b rest)

module _ {R : Type 0} where
  -- What the loop has to keep: the flag is set only if a default profile is listed.
  IsFlagged : Bool → List (Bytes × LimitProfile R) → Type 0
  IsFlagged has_default profiles = (has_default ≡ false) ⊎ IsListed (codes "default") profiles

  IsFlagged-emplace :
      (name : Bytes) (p : LimitProfile R) (has_default : Bool)
      (profiles : List (Bytes × LimitProfile R))
      → IsFlagged has_default profiles
      → IsFlagged (has_default || equal name (codes "default")) (emplace name p profiles)
  unfolding IsFlagged
  IsFlagged-emplace name p has_default profiles (inr (d, l)) =
      inr (d, emplace-keeps (codes "default") name p d profiles l)
  IsFlagged-emplace name p has_default profiles (inl e) =
      elim (Bool-cases (equal name (codes "default"))) [
        | inl same ↦ inr (
            subst (λ n. IsListed n (emplace name p profiles))
              ((equal_iff name (codes "default")).0 same) (lookup-emplace name p profiles))
        | inr other ↦ inl (ground arith)
      ]

  IsDone : Result LimitError (Bool × List (Bytes × LimitProfile R)) → Type 0
  IsDone (err _) = Unit
  IsDone (ok (has_default, profiles)) = IsFlagged has_default profiles

  IsDone-bind :
      {A : Type 0} (r : Result LimitError A)
      (k : A → Result LimitError (Bool × List (Bytes × LimitProfile R)))
      → ((a : A) → IsDone (k a))
      → IsDone (r >>= k)
  unfolding IsDone
  IsDone-bind (err _) k done = tt
  IsDone-bind (ok a) k done = done a

  read_profiles-IsDone :
      (items : List (Bytes × RawProfile R)) (has_default : Bool)
      (profiles : List (Bytes × LimitProfile R))
      → IsFlagged has_default profiles
      → IsDone (read_profiles items has_default profiles)
  unfolding read_profiles IsDone
  read_profiles-IsDone [] has_default profiles f = f
  read_profiles-IsDone ((name, raw) ∷ items) has_default profiles f =
      IsDone-bind (parse raw)
        (λ p.
          read_profiles items (has_default || equal name (codes "default"))
            (emplace name p profiles))
        λ p. read_profiles-IsDone items _ _ (IsFlagged-emplace name p has_default profiles f)

  flagged_default :
      (profiles : List (Bytes × LimitProfile R))
      → IsFlagged true profiles
      → IsListed (codes "default") profiles
  unfolding IsFlagged
  flagged_default profiles (inl e) = cc
  flagged_default profiles (inr l) = l

  HasDefault : Result LimitError (LimitConfig R) → Type 0
  HasDefault (err _) = Unit
  HasDefault (ok cfg) = IsListed (codes "default") cfg.profiles

  HasDefault-bind :
      {A : Type 0} (r : Result LimitError A) (k : A → Result LimitError (LimitConfig R))
      → ((a : A) → HasDefault (k a))
      → HasDefault (r >>= k)
  unfolding HasDefault
  HasDefault-bind (err _) k has = tt
  HasDefault-bind (ok a) k has = has a

  -- The last lines of the method.
  HasDefault-end :
      (fast slow : R) (r : Result LimitError (Bool × List (Bytes × LimitProfile R)))
      → IsDone r
      → HasDefault (
          r >>= λ x.
          guard x.0 no_default
          >> ok (record { fast_multiplier = fast; slow_multiplier = slow; profiles = x.1 }))
  unfolding HasDefault IsDone
  HasDefault-end fast slow (err _) done = tt
  HasDefault-end fast slow (ok (false, profiles)) done = tt
  HasDefault-end fast slow (ok (true, profiles)) done = flagged_default profiles done

  read-HasDefault : (file : ConfigFile R) → HasDefault (read file)
  unfolding read IsFlagged
  read-HasDefault file = HasDefault-bind (guard file.is_regular_file no_config) _ λ t.
      HasDefault-bind (guard file.good config_denied) _ λ t.
        HasDefault-bind (or_throw file.content bad_json) _ λ data'.
          HasDefault-bind (or_throw data'.raw_fast_multiplier bad_json) _ λ fast.
            HasDefault-bind (or_throw data'.raw_slow_multiplier bad_json) _ λ slow.
              HasDefault-bind (or_throw data'.raw_profiles bad_json) _ λ items.
                HasDefault-end fast slow (read_profiles items false [])
                  (read_profiles-IsDone items false [] (inl refl))

  -- A configuration that is read has a default profile, so the program finds it, whatever other
  -- profiles the file names, and however often.
  pub read-IsListed :
      (file : ConfigFile R) (cfg : LimitConfig R)
      → read file ≡ ok cfg
      → IsListed (codes "default") cfg.profiles
  unfolding HasDefault
  read-IsListed file cfg e = subst HasDefault e (read-HasDefault file)
