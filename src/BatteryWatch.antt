-- ===== src/BatteryWatch.antt =====
-- src/battery_watch.cpp. The arithmetic of float, what libudev finds, and whether the power state can be
-- written, are parameters.
pub mod Reading
pub mod Rounds
pub mod Charges
use tjtools.Common.{
  ℕ, ◌+◌, ◌^◌, Bool, true, false, not, ◌||◌, ◌&&◌, List, [], ◌∷◌, Option, none, some, Bytes, codes,
  equal, ltb, if◌then◌else◌, ◌==◌,
}
use tjtools.Common.Int.{ℤ, pos}
use tjtools.Common.Result.{Result, ok, err, ◌>>=◌}
use tjtools.Text.{starts_with_digit, scan_digits}

-- The operations on float that the program uses, and its literals.
pub record Floats : Type 1 where
  pub Float : Type 0
  pub of_unsigned : ℕ → Float
  pub divide : Float → Float → Float
  pub times : Float → Float → Float
  pub less : Float → Float → Bool
  pub leq : Float → Float → Bool
  pub geq : Float → Float → Bool
  pub minus_one : Float
  pub half : Float
  pub five : Float
  pub ninety_five : Float
  pub hundred : Float

-- The codes of the exceptions; `stream_failure` is that of the output stream.
pub data Failure : Type 0 where
  einval erange enodev enomem stream_failure : Failure

-- The attributes of a device, by name.
abbrev pub Attributes : Type 0
Attributes = Bytes → Option Bytes

abbrev pub get_sysattr_value : Attributes → Bytes → Bytes
get_sysattr_value device sysattr = elim (device sysattr) [ none ↦ [] | some value ↦ value ]

-- std::from_chars reads the digits at the start.
unfoldable pub to_unsigned : Bytes → Result Failure ℕ
to_unsigned input =
    if not (starts_with_digit 10 input)
    then err einval
    else if ltb (scan_digits 10 0 input) (2 ^ 32)
    then ok (scan_digits 10 0 input)
    else err erange

pub data State : Type 0 where
  unknown charging discharging : State

abbrev pub state_of : Bytes → State
state_of status =
    if equal status (codes "Charging")
    then charging
    else if equal status (codes "Discharging")
    then discharging
    else unknown

-- Two attributes, read one after the other.
abbrev pub read_pair : Attributes → Bytes → Bytes → Result Failure (ℕ × ℕ)
read_pair device full now = do
  charge_full ← to_unsigned (get_sysattr_value device full)
  charge_now ← to_unsigned (get_sysattr_value device now)
  ok (charge_full, charge_now)

abbrev pub is_empty : Bytes → Bool
is_empty [] = true
is_empty _ = false

abbrev pub read_charge : Attributes → Result Failure (ℕ × ℕ)
read_charge device =
    if is_empty (get_sysattr_value device (codes "charge_full"))
    then read_pair device (codes "energy_full") (codes "energy_now")
    else read_pair device (codes "charge_full") (codes "charge_now")

pub data Action : Type 0 where
  slept : Action
  suspended : Action

-- The actions of the rounds, and the exception that ends them, if any.
abbrev pub Log : Type 0
Log = List Action × Option Failure

abbrev pub after : Action → Log → Log
after a (actions, end) = (a ∷ actions, end)

module _ (F : Floats) where
  pub record BatteryContext : Type 0 where
    pub device_name : Bytes
    pub state : State
    pub charge_level : F.Float

  -- udev_new gives a context, or not.
  unfoldable pub make_context : Bool → Bytes → Result Failure BatteryContext
  make_context udev device =
      if not udev
      then err enomem
      else if is_empty device
      then err einval
      else ok (record { device_name = device; state = unknown; charge_level = F.minus_one })

  -- The exception, if one is thrown, and the object.
  abbrev pub Polled : Type 0
  Polled = Option Failure × BatteryContext

  abbrev pub set_level : Result Failure (ℕ × ℕ) → BatteryContext → Polled
  set_level (err e) c = (some e, c)
  set_level (ok (charge_full, charge_now)) c =
      if charge_full == 0 || charge_now == 0 then (some einval, c) else (
        none,
        record c { charge_level = F.divide (F.of_unsigned charge_now) (F.of_unsigned charge_full) },
      )

  -- The device that libudev finds by the name, if any.
  unfoldable pub poll : Option Attributes → BatteryContext → Polled
  poll none c = (some enodev, c)
  poll (some device) c =
      set_level (read_charge device)
        (record c { state = state_of (get_sysattr_value device (codes "status")) })

  abbrev is_discharging : State → Bool
  is_discharging discharging = true
  is_discharging _ = false

  unfoldable pub is_critical : F.Float → BatteryContext → Bool
  is_critical treshold c =
      if F.less (F.times c.charge_level F.hundred) (F.times treshold F.half)
      then true
      else if not (is_discharging c.state)
      then false
      else F.less (F.times c.charge_level F.hundred) treshold

  -- What one round of the endless loop finds: the devices by name, and whether sys_suspend can write.
  pub record Round : Type 0 where
    pub devices : Bytes → Option Attributes
    pub writable : Bool

  -- Every round ends with the sleep of the interval: `slept` is one that does nothing else.
  abbrev pub act : Bool → Bool → Log → Log
  act critical writable rest =
      if critical
      then (if writable then after suspended rest else ([], some stream_failure))
      else after slept rest

  abbrev pub decide : F.Float → Bool → Polled → (BatteryContext → Log) → Log
  decide treshold writable (some e, c) next = ([], some e)
  decide treshold writable (none, c) next = act (is_critical treshold c) writable (next c)

  unfoldable pub watch : F.Float → List Round → BatteryContext → Log
  watch treshold [] c = ([], none)
  watch treshold (r ∷ rounds) c =
      decide treshold r.writable (poll (r.devices c.device_name) c) (λ c'. watch treshold rounds c')

  pub record Options : Type 0 where
    pub help : Bool
    pub interval : Option ℕ
    pub treshold : Option F.Float
    pub device : Option Bytes

  -- The value that main returns, or the rounds that it starts. The help text and the interval, which is
  -- only slept for, are not modelled.
  pub data Ending : Type 0 where
    returned : ℕ → Ending
    watched : Log → Ending

  abbrev started : Result Failure BatteryContext → (BatteryContext → Log) → Ending
  started (err e) run = watched ([], some e)
  started (ok c) run = watched (run c)

  abbrev with_options : Bool → List Round → Option ℕ → Option F.Float → Option Bytes → Ending
  with_options udev rounds none treshold device = returned 1
  with_options udev rounds (some interval) none device = returned 2
  with_options udev rounds (some interval) (some treshold) none = returned 3
  with_options udev rounds (some interval) (some treshold) (some device) =
      if F.leq treshold F.five || F.geq treshold F.ninety_five
      then returned 4
      else started (make_context udev device) (watch treshold rounds)

  unfoldable pub battery_main : Bool → List Round → Options → Ending
  battery_main udev rounds o =
      if o.help then returned 0 else with_options udev rounds o.interval o.treshold o.device
