-- ===== src/BatteryWatch/Reading.antt =====
-- What battery_watch.cpp reads of the numbers that the kernel prints.
use tjtools.Common.{
  ℕ, ◌^◌, ◌<◌, ◌≡◌, ap, ◌∙◌, arith, true, false, [], Option, none, some, Bytes, codes, ◌⊎◌, inl,
  inr,
}
use tjtools.Common.Result.{Result, ok, ◌>>=◌}
use tjtools.Text.{to_string}
use tjtools.Text.RoundTrip.{to_string_cons, to_string-starts_with_digit, scan_digits-to_string}
use tjtools.BatteryWatch.{
  Failure, Attributes, get_sysattr_value, to_unsigned, read_charge, read_pair, is_empty,
}

to_unsigned-to_string : (n : ℕ) → n < 2 ^ 32 → to_unsigned (to_string n) ≡ ok n
unfolding to_unsigned
to_unsigned-to_string n h =
    rw (to_string-starts_with_digit n, scan_digits-to_string n) (ground arith)

-- The device has these two numbers, as the attributes with this prefix.
abbrev Shows : Attributes → Bytes → Bytes → ℕ → ℕ → Type 0
Shows device full now charge_full charge_now =
    (device full ≡ some (to_string charge_full)) × (device now ≡ some (to_string charge_now))

-- A battery by its charge, or one that has its energy only.
abbrev pub IsBattery : Attributes → ℕ → ℕ → Type 0
IsBattery device charge_full charge_now =
    Shows device (codes "charge_full") (codes "charge_now") charge_full charge_now
    ⊎ ((device (codes "charge_full") ≡ none)
        × Shows device (codes "energy_full") (codes "energy_now") charge_full charge_now)

read_number :
    (device : Attributes) (name : Bytes) (n : ℕ)
    → device name ≡ some (to_string n)
    → n < 2 ^ 32
    → to_unsigned (get_sysattr_value device name) ≡ ok n
read_number device name n e h =
    ap (λ (o : Option Bytes). to_unsigned (elim o [ none ↦ [] | some value ↦ value ])) e
    ∙ to_unsigned-to_string n h

read_pair_lem :
    (device : Attributes) (full now : Bytes) (charge_full charge_now : ℕ)
    → Shows device full now charge_full charge_now
    → charge_full < 2 ^ 32
    → charge_now < 2 ^ 32
    → read_pair device full now ≡ ok (charge_full, charge_now)
read_pair_lem device full now charge_full charge_now (e, f) h l =
    ap
      (λ (m : Result Failure ℕ).
        m >>= λ a. to_unsigned (get_sysattr_value device now) >>= λ b. ok (a, b))
      (read_number device full charge_full e h)
    ∙ ap (λ (m : Result Failure ℕ). m >>= λ b. ok (charge_full, b))
        (read_number device now charge_now f l)

full_present :
    (device : Attributes) (name : Bytes) (n : ℕ)
    → device name ≡ some (to_string n)
    → is_empty (get_sysattr_value device name) ≡ false
full_present device name n e =
    let (c, rest, f) = to_string_cons n in
    ap (λ (o : Option Bytes). is_empty (elim o [ none ↦ [] | some value ↦ value ])) e
    ∙ ap is_empty f

full_absent :
    (device : Attributes) (name : Bytes)
    → device name ≡ none
    → is_empty (get_sysattr_value device name) ≡ true
full_absent device name e =
    ap (λ (o : Option Bytes). is_empty (elim o [ none ↦ [] | some value ↦ value ])) e

-- For a battery with the numbers that the kernel prints, by their charge or, without that, by their
-- energy, both fields are read as they are.
pub read_charge-IsBattery :
    (device : Attributes) (charge_full charge_now : ℕ)
    → IsBattery device charge_full charge_now
    → charge_full < 2 ^ 32
    → charge_now < 2 ^ 32
    → read_charge device ≡ ok (charge_full, charge_now)
read_charge-IsBattery device charge_full charge_now (inl shows) h l =
    rw (full_present device (codes "charge_full") charge_full shows.0)
      (read_pair_lem device _ _ charge_full charge_now shows h l)
read_charge-IsBattery device charge_full charge_now (inr (absent, shows)) h l =
    rw (full_absent device (codes "charge_full") absent)
      (read_pair_lem device _ _ charge_full charge_now shows h l)
