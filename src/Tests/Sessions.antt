-- ===== src/Tests/Sessions.antt =====
-- src/active_user.c, src/notify_wrapper.c and src/battery_watch.cpp on concrete inputs.
use tjtools.Common.{
  All, ◌<◌, ◌^◌, ℕ, ◌*◌, ◌/◌, ◌≡◌, refl, true, false, List, [], ◌∷◌, none, some, Bytes, codes, ltb,
  leb, if◌then◌else◌, equal, arith, ◌↔◌, inl, map,
}
use tjtools.Common.Int.{pos}
use tjtools.Sessions.{
  Session, Listing, listed, get_active_user, Command, End, executed, exec_notify, notify_main,
}
use tjtools.Sessions.ActiveUser.{expected, get_active_user-expected}
use tjtools.Sessions.Notify.{HasWayland, Asks, notify_main_iff}
use tjtools.BatteryWatch.{
  Floats, Attributes, BatteryContext, unknown, discharging, State, Round, poll, watch, einval,
  battery_main, Options, watched, slept, suspended, state_of, get_sysattr_value,
}
use tjtools.Text.{to_string}
use tjtools.BatteryWatch.Charges.{Observation, IsObservation, asked, battery_main-asked}
use tjtools.BatteryWatch.Reading.{IsBattery}
use tjtools.BatteryWatch.Rounds.{until_failure}

abbrev remote_session : Session
remote_session = record {
  remote = pos 1;
  active = pos 1;
  uid = (pos 0, 1000);
  kind = (pos 0, codes "tty");
}

abbrev desktop : Session
desktop = record {
  remote = pos 0;
  active = pos 1;
  uid = (pos 0, 1001);
  kind = (pos 0, codes "wayland");
}

get_active_user-expected_example :
    get_active_user (listed (remote_session ∷ desktop ∷ []))
    ≡ expected (pos 2) (remote_session ∷ desktop ∷ [])
get_active_user-expected_example = get_active_user-expected remote_session (desktop ∷ [])

-- A remote session alone: the result is 1, but no user is stored.
no_user_is_stored : get_active_user (listed (remote_session ∷ [])) ≡ (pos 1, none)
unfolding get_active_user tjtools.Sessions.find_active
no_user_is_stored = refl

abbrev sent : Command
sent = exec_notify 1001 (codes "Hello") (codes "World") none

notify_main_iff_example :
    (notify_main 1001 (listed (remote_session ∷ desktop ∷ [])) (codes "Hello" ∷ codes "World" ∷ [])
      ≡ executed sent)
    ↔ ((sessions : List Session) × (listed (remote_session ∷ desktop ∷ []) ≡ listed sessions)
        × HasWayland 1001 sessions
        × Asks 1001 (codes "Hello" ∷ codes "World" ∷ []) sent)
notify_main_iff_example =
    notify_main_iff 1001 (listed (remote_session ∷ desktop ∷ []))
      (codes "Hello" ∷ codes "World" ∷ []) sent

-- Thousandths for the numbers.
abbrev quotient : ℕ → ℕ → ℕ
quotient a b = a * 1000 / b

abbrev decimals : Floats
decimals = record {
  Float = ℕ;
  of_unsigned = λ n. n * 1000;
  divide = quotient;
  times = λ a b. a * b / 1000;
  less = ltb;
  leq = leb;
  geq = λ a b. leb b a;
  minus_one = 0;
  half = 500;
  five = 5000;
  ninety_five = 95000;
  hundred = 100000;
}

-- A battery with a full charge of 50.
abbrev battery : Bytes → Bytes → Attributes
battery status charge_now name =
    if equal name (codes "status")
    then some status
    else if equal name (codes "charge_full")
    then some (codes "50")
    else if equal name (codes "charge_now")
    then some charge_now
    else none

abbrev context : BatteryContext decimals
context = record { device_name = codes "BAT0"; state = unknown; charge_level = 0 }

abbrev low : Attributes
low = battery (codes "Discharging") (codes "6")

low-IsBattery : IsBattery low 50 6
unfolding equal tjtools.Text.to_string tjtools.Text.digits_from
low-IsBattery = inl (refl, refl)

abbrev round : Attributes → Round decimals
round device = record { devices = λ name. some device; writable = true }

-- Discharging at 80, then at 12 percent; charging at 12, then at 6 percent.
abbrev rounds : List (Round decimals)
rounds =
    round (battery (codes "Discharging") (codes "40"))
    ∷ round low
    ∷ round (battery (codes "Charging") (codes "6"))
    ∷ round (battery (codes "Charging") (codes "3"))
    ∷ []

abbrev options : Options decimals
options = record {
  help = false;
  interval = some 60;
  treshold = some 20000;
  device = some (codes "BAT0");
}

-- What is seen of one of these batteries.
abbrev seen : Bytes → Bytes → ℕ → Observation decimals
seen status text charge_now = record {
  round = round (battery status text);
  battery = battery status text;
  charge_full = 50;
  charge_now = charge_now;
  status = status;
}

abbrev observations : List (Observation decimals)
observations =
    seen (codes "Discharging") (codes "40") 40
    ∷ seen (codes "Discharging") (codes "6") 6
    ∷ seen (codes "Charging") (codes "6") 6
    ∷ seen (codes "Charging") (codes "3") 3
    ∷ []

observed :
    (status : Bytes) (charge_now : ℕ)
    → charge_now < 2 ^ 32
    → IsObservation decimals (codes "BAT0") (seen status (to_string charge_now) charge_now)
unfolding equal tjtools.Text.to_string tjtools.Text.digits_from
observed status charge_now h = record {
  found = refl;
  shows = inl (refl, refl);
  shows_status = refl;
  full_word = omega arith;
  now_word = h;
}

All-observed : All (IsObservation decimals (codes "BAT0")) observations
unfolding tjtools.Text.to_string tjtools.Text.digits_from
All-observed = (
  observed (codes "Discharging") 40 (omega arith),
  (
    observed (codes "Discharging") 6 (omega arith),
    (
      observed (codes "Charging") 6 (omega arith),
      (observed (codes "Charging") 3 (omega arith), tt),
    ),
  ),
)

battery_main-asked_example :
    battery_main decimals true rounds options
    ≡ watched (until_failure decimals (map (asked decimals 20000) observations))
battery_main-asked_example =
    battery_main-asked decimals (codes "BAT0") 60 20000 observations refl refl refl All-observed

rounds_are_watched :
    battery_main decimals true rounds options
    ≡ watched (slept ∷ suspended ∷ slept ∷ suspended ∷ [], none)
unfolding battery_main watch poll tjtools.BatteryWatch.make_context equal
    tjtools.BatteryWatch.to_unsigned tjtools.Text.digit tjtools.Text.scan_digits
    tjtools.BatteryWatch.is_critical
rounds_are_watched = refl

-- An empty battery ends the program: the system is not suspended.
empty_battery_ends :
    battery_main decimals true (round (battery (codes "Discharging") (codes "0")) ∷ []) options
    ≡ watched ([], some einval)
unfolding battery_main watch poll tjtools.BatteryWatch.make_context equal
    tjtools.BatteryWatch.to_unsigned tjtools.Text.digit tjtools.Text.scan_digits
empty_battery_ends = refl
