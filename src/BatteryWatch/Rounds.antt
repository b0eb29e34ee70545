-- ===== src/BatteryWatch/Rounds.antt =====
-- The rounds of battery_watch.cpp: what each one does depends on the battery that it finds alone.
use tjtools.Common.{
  ℕ, ◌≡◌, refl, ap, ◌∙◌, arith, Bool, true, false, ◌||◌, ◌&&◌, List, [], ◌∷◌, Option, none, some,
  Bytes, codes, equal, equal_iff, ◌==◌, if◌then◌else◌, map, inl, inr, Bool-cases,
}
use tjtools.Common.Result.{Result, ok, err}
use tjtools.BatteryWatch.{
  Floats, Failure, einval, enodev, stream_failure, Attributes, get_sysattr_value, read_charge,
  state_of, BatteryContext, Round, Action, slept, suspended, Log, after, poll, is_critical, watch,
  decide, set_level, act,
}

charging_other :
    (status : Bytes)
    → equal status (codes "Charging") ≡ true
    → equal status (codes "Discharging") ≡ false
unfolding equal
charging_other status e =
    ap (λ s. equal s (codes "Discharging")) ((equal_iff status (codes "Charging")).0 e)

module _ (F : Floats) where
  -- Is the charge below half of the threshold, or below the threshold while discharging?
  abbrev pub is_low : F.Float → ℕ → ℕ → Bytes → Bool
  is_low treshold charge_full charge_now status =
      let percent =
        F.times (F.divide (F.of_unsigned charge_now) (F.of_unsigned charge_full)) F.hundred in
      F.less percent (F.times treshold F.half)
      || (equal status (codes "Discharging") && F.less percent treshold)

  abbrev suspend : Bool → Result Failure Action
  suspend true = ok suspended
  suspend false = err stream_failure

  -- The same for the two numbers, or the exception that reading them throws.
  abbrev pub of_charge : F.Float → Bool → Bytes → Result Failure (ℕ × ℕ) → Result Failure Action
  of_charge treshold writable status (err e) = err e
  of_charge treshold writable status (ok (charge_full, charge_now)) =
      if charge_full == 0 || charge_now == 0
      then err einval
      else if is_low treshold charge_full charge_now status
      then suspend writable
      else ok slept

  abbrev pub on_device : F.Float → Bool → Option Attributes → Result Failure Action
  on_device treshold writable none = err enodev
  on_device treshold writable (some device) =
      of_charge treshold writable (get_sysattr_value device (codes "status")) (read_charge device)

  -- What a round is to do.
  abbrev pub decision : F.Float → Bytes → Round F → Result Failure Action
  decision treshold name r = on_device treshold r.writable (r.devices name)

  -- The actions up to the first exception.
  abbrev pub until_failure : List (Result Failure Action) → Log
  until_failure [] = ([], none)
  until_failure (err e ∷ rest) = ([], some e)
  until_failure (ok a ∷ rest) = after a (until_failure rest)

  critical-low :
      (treshold : F.Float) (charge_full charge_now : ℕ) (status : Bytes) (name : Bytes)
      → is_critical F treshold (record {
        device_name = name;
        state = state_of status;
        charge_level = F.divide (F.of_unsigned charge_now) (F.of_unsigned charge_full);
      })
        ≡ is_low treshold charge_full charge_now status
  unfolding is_critical
  critical-low treshold charge_full charge_now status name =
      elim (Bool-cases (equal status (codes "Charging"))) [
        | inl e ↦ simp (e, charging_other status e) (ground arith)
        | inr e ↦ simp e (elim (Bool-cases (equal status (codes "Discharging"))) [
          | inl f ↦ simp f (ground arith)
          | inr f ↦ simp f (ground arith)
        ])
      ]

  act-suspend :
      (low writable : Bool) (log : Log) (rest : List (Result Failure Action))
      → log ≡ until_failure rest
      → act F low writable log ≡ until_failure ((if low then suspend writable else ok slept) ∷ rest)
  act-suspend true true log rest e = ap (after suspended) e
  act-suspend true false log rest e = refl
  act-suspend false writable log rest e = ap (after slept) e

  decide-charge :
      (treshold : F.Float) (writable : Bool) (status : Bytes) (name : Bytes) (level : F.Float)
      (charge : Result Failure (ℕ × ℕ)) (next : BatteryContext F → Log)
      (rest : List (Result Failure Action))
      → ((c : BatteryContext F) → c.device_name ≡ name → next c ≡ until_failure rest)
      → decide F treshold writable
          (set_level F charge
            (record { device_name = name; state = state_of status; charge_level = level }))
          next
        ≡ until_failure (of_charge treshold writable status charge ∷ rest)
  decide-charge treshold writable status name level (err e) next rest h = refl
  decide-charge treshold writable status name level (ok (charge_full, charge_now)) next rest h =
      elim (Bool-cases (charge_full == 0 || charge_now == 0)) [
        | inl e ↦ rw e refl
        | inr e ↦ rw e (
            rw (critical-low treshold charge_full charge_now status name)
              (act-suspend _ writable (next _) rest (h _ refl)))
      ]

  decide-decision :
      (treshold : F.Float) (writable : Bool) (device : Option Attributes) (c : BatteryContext F)
      (next : BatteryContext F → Log) (rest : List (Result Failure Action))
      → ((c' : BatteryContext F) → c'.device_name ≡ c.device_name → next c' ≡ until_failure rest)
      → decide F treshold writable (poll F device c) next
        ≡ until_failure (on_device treshold writable device ∷ rest)
  unfolding poll
  decide-decision treshold writable none c next rest h = refl
  decide-decision treshold writable (some device) c next rest h =
      decide-charge treshold writable (get_sysattr_value device (codes "status")) c.device_name
        c.charge_level (read_charge device) next rest h

  -- The actions of the endless loop are those that each round is to do by the battery that it finds, up
  -- to the first exception: the system is suspended exactly when the charge is below half of the
  -- threshold, or below the threshold while the battery is discharging.
  pub watch-decision :
      (treshold : F.Float) (rounds : List (Round F)) (c : BatteryContext F)
      → watch F treshold rounds c ≡ until_failure (map (decision treshold c.device_name) rounds)
  unfolding watch
  watch-decision treshold [] c = refl
  watch-decision treshold (r ∷ rounds) c =
      decide-decision treshold r.writable (r.devices c.device_name) c
        (λ c'. watch F treshold rounds c') (map (decision treshold c.device_name) rounds)
        (λ c' e.
          watch-decision treshold rounds c'
          ∙ ap (λ name. until_failure (map (decision treshold name) rounds)) e)
