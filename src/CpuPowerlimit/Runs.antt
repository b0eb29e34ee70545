-- ===== src/CpuPowerlimit/Runs.antt =====
-- Whole runs of the program.
use tjtools.Common.{
  ◌≢◌, ◌⊎◌, inl, inr, Bool-cases, ◌++◌, List, ◌==◌, ◌≡◌, refl, true, false, [], ◌∷◌, Option, none,
  some, Bytes, codes, arith,
}
use tjtools.Common.Result.{Result, ok, err}
use tjtools.Text.{to_string}
use tjtools.CpuPowerlimit.{
  Floats, LimitProfile, LimitConfig, LimitError, ConfigFile, System, exited, uncaught,
  out_of_bounds, command_failed, Run, read, lookup, unset, arguments, choose, apply_all, chosen,
  with_default, from_tdp, Options, limit_main, bounds_check,
}

module _ (F : Floats) (sys : System) where
  -- The two children of a run that is not the first one of the system.
  abbrev pub IsRestored : LimitConfig F.Float → Run → Type 0
  IsRestored cfg run =
      (p : LimitProfile F.Float) × (def : LimitProfile F.Float) × (lookup (codes "default")
          cfg.profiles
        ≡ some def)
      × (run.0 ≡ arguments F p ∷ arguments F def ∷ [])
      × (sys.exit_code (arguments F p) ≡ 0)
      × (sys.exit_code (arguments F def) ≡ 0)

  apply_all-IsRestored :
      (cfg : LimitConfig F.Float) (def p : LimitProfile F.Float)
      → lookup (codes "default") cfg.profiles ≡ some def
      → (apply_all F sys false def p).1 ≡ exited 0
      → IsRestored cfg (apply_all F sys false def p)
  unfolding apply_all
  apply_all-IsRestored cfg def p l h = (p, def, l, ground arith, ground arith, ground arith)

  chosen-IsRestored :
      (cfg : LimitConfig F.Float) (def : LimitProfile F.Float)
      (c : Option (Result LimitError (LimitProfile F.Float)))
      → lookup (codes "default") cfg.profiles ≡ some def
      → (chosen F sys false def c).1 ≡ exited 0
      → IsRestored cfg (chosen F sys false def c)
  chosen-IsRestored cfg def none l h = absurd (ground arith)
  chosen-IsRestored cfg def (some (err e)) l h = absurd (ground arith)
  chosen-IsRestored cfg def (some (ok p)) l h = apply_all-IsRestored cfg def p l h

  -- The command line of a profile or a TDP.
  abbrev pub plain : Option Bytes → Option F.Float → Options F
  plain profile tdp = record { help = false; init = false; profile = profile; tdp = tdp }

  with_default-IsRestored :
      (cfg : LimitConfig F.Float) (profile : Option Bytes) (tdp : Option F.Float)
      (l : Option (LimitProfile F.Float))
      → lookup (codes "default") cfg.profiles ≡ l
      → (with_default F sys (plain profile tdp) cfg l).1 ≡ exited 0
      → IsRestored cfg (with_default F sys (plain profile tdp) cfg l)
  with_default-IsRestored cfg profile tdp none l h = absurd (ground arith)
  with_default-IsRestored cfg profile tdp (some def) l h =
      chosen-IsRestored cfg def (choose F sys cfg def false profile tdp) l h

  -- A run with a readable configuration, without the options help and init, that exits with 0 has
  -- started two children, which both exited with 0: the first with some profile, the second, behind
  -- it, with the default profile of the configuration.
  pub limit_main_restores :
      (file : ConfigFile F.Float) (cfg : LimitConfig F.Float) (profile : Option Bytes)
      (tdp : Option F.Float)
      → read file ≡ ok cfg
      → (limit_main F sys file (plain profile tdp)).1 ≡ exited 0
      → IsRestored cfg (limit_main F sys file (plain profile tdp))
  unfolding limit_main
  limit_main_restores file cfg profile tdp r h = rw r (
      with_default-IsRestored cfg profile tdp (lookup (codes "default") cfg.profiles) refl
        (rw r at h))

  abbrev pub InBounds : F.Float → Type 0
  InBounds value = (F.geq value F.eight ≡ true) × (F.leq value F.fifty_four ≡ true)

  -- The TDP is in bounds, and so are both limits that follow from it.
  abbrev pub IsAllowed : LimitConfig F.Float → F.Float → Type 0
  IsAllowed cfg tdp =
      InBounds tdp
      × InBounds (F.times tdp cfg.fast_multiplier)
      × InBounds (F.times tdp cfg.slow_multiplier)

  InBounds-cases :
      (value : F.Float)
      → (InBounds value × (bounds_check F value ≡ true))
        ⊎ ((¬ InBounds value) × (bounds_check F value ≡ false))
  InBounds-cases value = elim (Bool-cases (F.geq value F.eight)) [
    | inl g ↦ elim (Bool-cases (F.leq value F.fifty_four)) [
      | inl l ↦ inl ((g, l), rw (g, l) refl)
      | inr l ↦ inr (λ b. ground arith, rw (g, l) refl)
    ]
    | inr g ↦ inr (λ b. ground arith, rw g refl)
  ]

  -- The profile that a TDP leads to, or the exception.
  tdp_cases :
      (cfg : LimitConfig F.Float) (def : LimitProfile F.Float) (tdp : F.Float)
      → (IsAllowed cfg tdp × (choose F sys cfg def false none (some tdp) ≡ some (ok (unset F))))
        ⊎ ((¬ IsAllowed cfg tdp)
            × (choose F sys cfg def false none (some tdp) ≡ some (err out_of_bounds)))
  unfolding choose from_tdp
  tdp_cases cfg def tdp = elim (InBounds-cases tdp) [
    | inr (n, e) ↦ inr (λ a. n a.0, rw e refl)
    | inl (a, e) ↦ elim (InBounds-cases (F.times tdp cfg.fast_multiplier)) [
      | inr (n, f) ↦ inr (λ a. n a.1, rw (e, f) refl)
      | inl (b, f) ↦ elim (InBounds-cases (F.times tdp cfg.slow_multiplier)) [
        | inr (n, g) ↦ inr (λ a. n a.2, rw (e, f, g) refl)
        | inl (c, g) ↦ inl ((a, b, c), rw (e, f, g) refl)
      ]
    ]
  ]

  -- The second child is started if the first one succeeds, and the program succeeds if both do.
  abbrev pub RunsBoth : List Bytes → List Bytes → Run → Type 0
  RunsBoth first second run =
      ((sys.exit_code first ≢ 0) × (run ≡ (first ∷ [], uncaught command_failed)))
      ⊎ ((sys.exit_code first ≡ 0)
          × (sys.exit_code second ≢ 0)
          × (run ≡ (first ∷ second ∷ [], uncaught command_failed)))
      ⊎ ((sys.exit_code first ≡ 0)
          × (sys.exit_code second ≡ 0)
          × (run ≡ (first ∷ second ∷ [], exited 0)))

  apply_all-RunsBoth :
      (def p : LimitProfile F.Float)
      → sys.lock_opens ≡ true
      → sys.try_lock ≡ true
      → RunsBoth (arguments F p) (arguments F def) (apply_all F sys false def p)
  unfolding apply_all
  apply_all-RunsBoth def p o t = elim (Bool-cases (sys.exit_code (arguments F p) == 0)) [
    | inr a ↦ inl (ground arith, rw (o, t, a) refl)
    | inl a ↦ elim (Bool-cases (sys.exit_code (arguments F def) == 0)) [
      | inr b ↦ inr (inl (ground arith, ground arith, rw (o, t, a, b) refl))
      | inl b ↦ inr (inr (ground arith, ground arith, rw (o, t, a, b) refl))
    ]
  ]

  -- The four limits as ryzenadj takes them, in thousandths.
  abbrev pub limit_texts : (stapm fast slow : F.Float) → List Bytes → List Bytes
  limit_texts stapm fast slow more =
      (codes "--stapm-limit=" ++ to_string (F.thousandths stapm))
      ∷ (codes "--fast-limit=" ++ to_string (F.thousandths fast))
      ∷ (codes "--slow-limit=" ++ to_string (F.thousandths slow))
      ∷ more

  -- The option for a TDP has no effect on the limits. With a readable configuration, with its default
  -- profile, and with the lock, every TDP in bounds, and whose two products with the multipliers are,
  -- starts ryzenadj first with all three limits at minus one, and if that succeeds, for the default
  -- profile: which TDP was asked for makes no difference. For every other TDP nothing is started, and the
  -- program ends with an exception.
  pub limit_main_tdp :
      (file : ConfigFile F.Float) (cfg : LimitConfig F.Float) (stapm fast slow tctl tdp : F.Float)
      → read file ≡ ok cfg
      → lookup (codes "default") cfg.profiles
        ≡ some (record {
          stapm_limit = stapm;
          fast_limit = fast;
          slow_limit = slow;
          tctl_temp = some tctl;
        })
      → sys.lock_opens ≡ true
      → sys.try_lock ≡ true
      → let run = limit_main F sys file (plain none (some tdp)) in
        (IsAllowed cfg tdp
          × RunsBoth
              (limit_texts F.minus_one F.minus_one F.minus_one [])
              (limit_texts stapm fast slow
                ((codes "--tctl-temp=" ++ to_string (F.thousandths tctl)) ∷ []))
              run)
        ⊎ ((¬ IsAllowed cfg tdp) × (run ≡ ([], uncaught out_of_bounds)))
  unfolding limit_main
  limit_main_tdp file cfg stapm fast slow tctl tdp r l o t =
      let def : LimitProfile F.Float = record {
        stapm_limit = stapm;
        fast_limit = fast;
        slow_limit = slow;
        tctl_temp = some tctl;
      } in
      elim (tdp_cases cfg def tdp) [
        | inl (allowed, e) ↦ inl (allowed, rw (r, l, e) (apply_all-RunsBoth def (unset F) o t))
        | inr (outside, e) ↦ inr (outside, rw (r, l, e) refl)
      ]
