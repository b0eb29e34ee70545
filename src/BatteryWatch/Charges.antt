-- ===== src/BatteryWatch/Charges.antt =====
-- The whole of battery_watch.cpp on batteries that show numbers.
use tjtools.Common.{
  ℕ, ◌^◌, ◌<◌, ◌≡◌, refl, ap, ◌∙◌, true, false, List, [], ◌∷◌, Option, none, some, Bytes, codes,
  map, All,
}
use tjtools.Common.Result.{Result, ok}
use tjtools.BatteryWatch.{
  Floats, Failure, Attributes, read_charge, is_empty, Round, Action, watched, battery_main,
  make_context,
}
use tjtools.BatteryWatch.Reading.{IsBattery, read_charge-IsBattery}
use tjtools.BatteryWatch.Rounds.{of_charge, on_device, decision, until_failure, watch-decision}

module _ (F : Floats) where
  -- A round with the battery that it finds: its numbers and its status.
  pub record Observation : Type 0 where
    pub round : Round F
    pub battery : Attributes
    pub charge_full : ℕ
    pub charge_now : ℕ
    pub status : Bytes

  pub record IsObservation (name : Bytes) (o : Observation) : Type 0 where
    pub found : o.round.devices name ≡ some o.battery
    pub shows : IsBattery o.battery o.charge_full o.charge_now
    pub shows_status : o.battery (codes "status") ≡ some o.status
    pub full_word : o.charge_full < 2 ^ 32
    pub now_word : o.charge_now < 2 ^ 32

  -- What the round is to do by the numbers: none of them may be zero.
  abbrev pub asked : F.Float → Observation → Result Failure Action
  asked treshold o =
      of_charge F treshold o.round.writable o.status (ok (o.charge_full, o.charge_now))

  decision-asked :
      (treshold : F.Float) (name : Bytes) (o : Observation)
      → IsObservation name o
      → decision F treshold name o.round ≡ asked treshold o
  decision-asked treshold name o i =
      ap (on_device F treshold o.round.writable) i.found
      ∙ ap (λ s. of_charge F treshold o.round.writable s (read_charge o.battery))
          (ap (λ (s : Option Bytes). elim s [ none ↦ [] | some value ↦ value ]) i.shows_status)
      ∙ ap (of_charge F treshold o.round.writable o.status) (
          read_charge-IsBattery o.battery o.charge_full o.charge_now i.shows i.full_word i.now_word)

  decisions-asked :
      (treshold : F.Float) (name : Bytes) (os : List Observation)
      → All (IsObservation name) os
      → map (decision F treshold name) (map (λ (o : Observation). o.round) os)
        ≡ map (asked treshold) os
  decisions-asked treshold name [] h = refl
  decisions-asked treshold name (o ∷ os) (i, h) =
      rw (decision-asked treshold name o i) (rw (decisions-asked treshold name os h) refl)

  -- With all options given, a threshold between five and ninety-five, and a battery of that name in every
  -- round, the program does in each round what the two numbers and the status that the battery shows
  -- then ask for, up to the first exception: it suspends the system exactly when the charge is below
  -- half of the threshold, or below the threshold while the battery is discharging; an exception is
  -- thrown only at a number that is zero, and when the system cannot be suspended.
  pub battery_main-asked :
      (name : Bytes) (interval : ℕ) (treshold : F.Float) (os : List Observation)
      → is_empty name ≡ false
      → F.leq treshold F.five ≡ false
      → F.geq treshold F.ninety_five ≡ false
      → All (IsObservation name) os
      → battery_main F true (map (λ (o : Observation). o.round) os) (record {
        help = false;
        interval = some interval;
        treshold = some treshold;
        device = some name;
      })
        ≡ watched (until_failure F (map (asked treshold) os))
  unfolding battery_main make_context
  battery_main-asked name interval treshold os n low high h =
      simp (low, high, n)
        (ap watched (
          watch-decision F treshold _ _
          ∙ ap (until_failure F) (decisions-asked treshold name os h)))
