-- ===== src/CpuPowerlimit.antt =====
-- src/cpu_powerlimit.cpp: sets the power limits of the processor by ryzenadj. The floating-point numbers
-- are a parameter, and so are the JSON library, the lock and the child process.
pub mod Runs
pub mod Profiles
use tjtools.Common.{
  ℕ, Bool, true, false, ◌&&◌, ◌||◌, not, List, [], ◌∷◌, ◌++◌, Option, none, some, Bytes, codes,
  equal, ◌==◌, if◌then◌else◌,
}
use tjtools.Common.Result.{Result, ok, err, ◌>>=◌, ◌>>◌, guard, or_throw}
use tjtools.Text.{to_string}

-- What the program uses of float: `thousandths` is the conversion of limit_scale, which rounds.
pub record Floats : Type 1 where
  pub Float : Type 0
  pub times : Float → Float → Float
  pub geq : Float → Float → Bool
  pub leq : Float → Float → Bool
  pub minus_one : Float
  pub eight : Float
  pub fifty_four : Float
  pub thousandths : Float → ℕ

pub record LimitProfile (R : Type 0) : Type 0 where
  pub stapm_limit : R
  pub fast_limit : R
  pub slow_limit : R
  pub tctl_temp : Option R

-- The entries of a profile in the configuration: `none` if one is missing or no number.
pub record RawProfile (R : Type 0) : Type 0 where
  pub raw_stapm_limit : Option R
  pub raw_fast_limit : Option R
  pub raw_slow_limit : Option R
  pub raw_tctl_temp : Option R

-- The parsed configuration file.
pub record RawConfig (R : Type 0) : Type 0 where
  pub raw_fast_multiplier : Option R
  pub raw_slow_multiplier : Option R
  pub raw_profiles : Option (List (Bytes × RawProfile R))

pub record LimitConfig (R : Type 0) : Type 0 where
  pub fast_multiplier : R
  pub slow_multiplier : R
  pub profiles : List (Bytes × LimitProfile R)

pub data LimitError : Type 0 where
  no_config config_denied bad_json no_default out_of_bounds no_profile : LimitError
  no_lock_file lock_busy command_failed : LimitError

-- std::map::find, in the order of insertion.
unfoldable pub lookup {ℓ} : {A : Type ℓ} → Bytes → List (Bytes × A) → Option A
lookup name [] = none
lookup name ((n, a) ∷ rest) = let later = lookup name rest in if equal n name then some a else later

-- std::map::emplace: an entry that is there stays.
unfoldable pub emplace {ℓ} : {A : Type ℓ} → Bytes → A → List (Bytes × A) → List (Bytes × A)
emplace name a [] = (name, a) ∷ []
emplace name a ((n, b) ∷ rest) =
    let later = emplace name a rest in if equal n name then (n, b) ∷ rest else (n, b) ∷ later

unfoldable pub parse : {R : Type 0} → RawProfile R → Result LimitError (LimitProfile R)
parse input = do
  stapm ← or_throw input.raw_stapm_limit bad_json
  fast ← or_throw input.raw_fast_limit bad_json
  slow ← or_throw input.raw_slow_limit bad_json
  tctl ← or_throw input.raw_tctl_temp bad_json
  ok (record { stapm_limit = stapm; fast_limit = fast; slow_limit = slow; tctl_temp = some tctl })

-- The loop over the profiles, with `has_default`.
unfoldable pub read_profiles :
    {R : Type 0}
    → List (Bytes × RawProfile R)
    → Bool
    → List (Bytes × LimitProfile R)
    → Result LimitError (Bool × List (Bytes × LimitProfile R))
read_profiles [] has_default profiles = ok (has_default, profiles)
read_profiles ((name, raw) ∷ rest) has_default profiles = do
  profile ← parse raw
  read_profiles rest (has_default || equal name (codes "default")) (emplace name profile profiles)

-- What LimitConfig::read finds: is the file there, can it be opened, and what does it hold?
pub record ConfigFile (R : Type 0) : Type 0 where
  pub is_regular_file : Bool
  pub good : Bool
  pub content : Option (RawConfig R)

unfoldable pub read : {R : Type 0} → ConfigFile R → Result LimitError (LimitConfig R)
read file = do
  guard file.is_regular_file no_config
  guard file.good config_denied
  data' ← or_throw file.content bad_json
  fast ← or_throw data'.raw_fast_multiplier bad_json
  slow ← or_throw data'.raw_slow_multiplier bad_json
  items ← or_throw data'.raw_profiles bad_json
  (has_default, profiles) ← read_profiles items false []
  guard has_default no_default
  ok (record { fast_multiplier = fast; slow_multiplier = slow; profiles = profiles })

-- The lock file and the child process.
pub record System : Type 0 where
  pub touches : Bool
  pub lock_opens : Bool
  pub try_lock : Bool
  pub exit_code : List Bytes → ℕ

pub data End : Type 0 where
  exited : ℕ → End
  uncaught : LimitError → End

-- The children that were started, with their arguments, and how the program ends.
abbrev pub Run : Type 0
Run = List (List Bytes) × End

module _ (F : Floats) where
  abbrev pub limit_scale : F.Float → Bytes
  limit_scale value = to_string (F.thousandths value)

  abbrev pub bounds_check : F.Float → Bool
  bounds_check value = F.geq value F.eight && F.leq value F.fifty_four

  -- A profile that nothing has been read into.
  abbrev pub unset : LimitProfile F.Float
  unset = record {
    stapm_limit = F.minus_one;
    fast_limit = F.minus_one;
    slow_limit = F.minus_one;
    tctl_temp = none;
  }

  abbrev tctl_arguments : Option F.Float → List Bytes
  tctl_arguments none = []
  tctl_arguments (some t) = (codes "--tctl-temp=" ++ limit_scale t) ∷ []

  abbrev pub arguments : LimitProfile F.Float → List Bytes
  arguments p =
      (codes "--stapm-limit=" ++ limit_scale p.stapm_limit)
      ∷ (codes "--fast-limit=" ++ limit_scale p.fast_limit)
      ∷ (codes "--slow-limit=" ++ limit_scale p.slow_limit)
      ∷ tctl_arguments p.tctl_temp

  -- Throws unless the child exits with 0.
  abbrev pub applies : System → LimitProfile F.Float → Bool
  applies sys p = sys.exit_code (arguments p) == 0

  -- The profile as the method leaves it.
  unfoldable pub from_tdp :
      F.Float → F.Float → F.Float → LimitProfile F.Float → Result LimitError (LimitProfile F.Float)
  from_tdp tdp fast_multiplier slow_multiplier p = do
    guard
        (bounds_check tdp
          && bounds_check (F.times tdp fast_multiplier)
          && bounds_check (F.times tdp slow_multiplier))
        out_of_bounds
    ok p

  pub record Options : Type 0 where
    pub help : Bool
    pub init : Bool
    pub profile : Option Bytes
    pub tdp : Option F.Float

  -- The chain of the three options; the outer `none` is the missing argument.
  unfoldable pub choose :
      System
      → LimitConfig F.Float
      → LimitProfile F.Float
      → Bool
      → Option Bytes
      → Option F.Float
      → Option (Result LimitError (LimitProfile F.Float))
  choose sys cfg def_profile true profile tdp =
      some (if sys.touches then ok def_profile else err no_lock_file)
  choose sys cfg def_profile false (some name) tdp =
      some (or_throw (lookup name cfg.profiles) no_profile)
  choose sys cfg def_profile false none (some tdp) =
      some (from_tdp tdp cfg.fast_multiplier cfg.slow_multiplier unset)
  choose sys cfg def_profile false none none = none

  -- From the lock on. Without `init` the program waits for a signal and restores the default.
  unfoldable pub apply_all : System → Bool → LimitProfile F.Float → LimitProfile F.Float → Run
  apply_all sys is_init def_profile p =
      if not sys.lock_opens
      then ([], uncaught no_lock_file)
      else if not sys.try_lock
      then ([], uncaught lock_busy)
      else if not (applies sys p)
      then (arguments p ∷ [], uncaught command_failed)
      else if is_init
      then (arguments p ∷ [], exited 0)
      else if not (applies sys def_profile)
      then (arguments p ∷ arguments def_profile ∷ [], uncaught command_failed)
      else (arguments p ∷ arguments def_profile ∷ [], exited 0)

  abbrev pub chosen :
      System → Bool → LimitProfile F.Float → Option (Result LimitError (LimitProfile F.Float)) → Run
  chosen sys is_init def_profile none = ([], exited 1)
  chosen sys is_init def_profile (some (err e)) = ([], uncaught e)
  chosen sys is_init def_profile (some (ok p)) = apply_all sys is_init def_profile p

  abbrev pub with_default :
      System → Options → LimitConfig F.Float → Option (LimitProfile F.Float) → Run
  with_default sys o cfg none = ([], uncaught no_profile)
  with_default sys o cfg (some def_profile) =
      chosen sys o.init def_profile (choose sys cfg def_profile o.init o.profile o.tdp)

  abbrev pub with_config : System → Options → Result LimitError (LimitConfig F.Float) → Run
  with_config sys o (err e) = ([], uncaught e)
  with_config sys o (ok cfg) = with_default sys o cfg (lookup (codes "default") cfg.profiles)

  unfoldable pub limit_main : System → ConfigFile F.Float → Options → Run
  limit_main sys file o =
      let run = with_config sys o (read file) in if o.help then ([], exited 0) else run
