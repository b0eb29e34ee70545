-- ===== src/Tests/Powerlimit.antt =====
-- src/cpu_powerlimit.cpp on concrete inputs, with thousandths for the numbers.
use tjtools.Common.{
  ◌++◌, ◌⊎◌, ℕ, ◌≡◌, ◌*◌, ◌/◌, ◌-◌, refl, Bool, true, false, List, [], ◌∷◌, Option, none, some,
  Bytes, codes, arith, not,
}
use tjtools.Common.Int.{ℤ, pos, negsuc, ltb_ℤ, pos_part}
use tjtools.Common.Result.{ok}
use tjtools.CpuPowerlimit.{
  Floats, LimitProfile, RawProfile, LimitConfig, ConfigFile, System, Run, exited, uncaught,
  out_of_bounds, read, lookup, unset, arguments, apply_all, limit_main,
}
use tjtools.CpuPowerlimit.Runs.{
  IsRestored, IsAllowed, RunsBoth, limit_texts, plain, limit_main_restores, limit_main_tdp,
}
use tjtools.Text.{to_string}

abbrev to_thousandths : ℤ → ℕ
to_thousandths (pos n) = n
to_thousandths (negsuc n) = 4294967295 - n

abbrev decimals : Floats
decimals = record {
  Float = ℤ;
  times = λ a b. pos (pos_part a * pos_part b / 1000);
  geq = λ a b. not (ltb_ℤ a b);
  leq = λ a b. not (ltb_ℤ b a);
  minus_one = negsuc 999;
  eight = pos 8000;
  fifty_four = pos 54000;
  thousandths = to_thousandths;
}

abbrev quiet : RawProfile ℤ
quiet = record {
  raw_stapm_limit = some (pos 10000);
  raw_fast_limit = some (pos 12000);
  raw_slow_limit = some (pos 11000);
  raw_tctl_temp = some (pos 80000);
}

abbrev def : LimitProfile ℤ
def = record {
  stapm_limit = pos 10000;
  fast_limit = pos 12000;
  slow_limit = pos 11000;
  tctl_temp = some (pos 80000);
}

abbrev file : ConfigFile ℤ
file = record {
  is_regular_file = true;
  good = true;
  content = some (record {
    raw_fast_multiplier = some (pos 1200);
    raw_slow_multiplier = some (pos 1100);
    raw_profiles = some ((codes "default", quiet) ∷ []);
  });
}

abbrev cfg : LimitConfig ℤ
cfg = record {
  fast_multiplier = pos 1200;
  slow_multiplier = pos 1100;
  profiles = (codes "default", def) ∷ [];
}

abbrev sys : System
sys = record { touches = true; lock_opens = true; try_lock = true; exit_code = λ args. 0 }

file_is_read : read file ≡ ok cfg
unfolding read tjtools.CpuPowerlimit.read_profiles tjtools.CpuPowerlimit.parse tjtools.Common.equal
    tjtools.CpuPowerlimit.emplace
file_is_read = refl

default_listed : lookup (codes "default") cfg.profiles ≡ some def
unfolding lookup tjtools.Common.equal
default_listed = refl

limit_main_restores_example :
    IsRestored decimals sys cfg
      (limit_main decimals sys file (plain decimals sys (some (codes "default")) none))
unfolding limit_main read tjtools.CpuPowerlimit.read_profiles tjtools.CpuPowerlimit.parse
    tjtools.Common.equal lookup tjtools.CpuPowerlimit.emplace tjtools.CpuPowerlimit.choose apply_all
limit_main_restores_example =
    limit_main_restores decimals sys file cfg (some (codes "default")) none file_is_read refl

limit_main_tdp_example :
    let run = limit_main decimals sys file (plain decimals sys none (some (pos 20000))) in
    (IsAllowed decimals sys cfg (pos 20000)
      × RunsBoth decimals sys
          (limit_texts decimals sys (negsuc 999) (negsuc 999) (negsuc 999) [])
          (limit_texts decimals sys
            (pos 10000)
            (pos 12000)
            (pos 11000)
            ((codes "--tctl-temp=" ++ to_string 80000) ∷ []))
          run)
    ⊎ ((¬ IsAllowed decimals sys cfg (pos 20000)) × (run ≡ ([], uncaught out_of_bounds)))
limit_main_tdp_example =
    limit_main_tdp decimals sys file cfg (pos 10000) (pos 12000) (pos 11000) (pos 80000) (pos 20000)
      file_is_read default_listed refl refl
