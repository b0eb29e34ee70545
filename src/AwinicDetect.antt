-- ===== src/AwinicDetect.antt =====
-- src/awinic_detect.c: reads the identification code of an amplifier. The answers of the adapter are a
-- parameter.
use tjtools.Common.{ℕ, Bool, not, [], ◌++◌, Option, none, some, Bytes, codes, if◌then◌else◌}
use tjtools.Common.Int.{ℤ, pos, negsuc}
use tjtools.Text.{to_string, to_hex}

abbrev pub adapter_nr : ℕ
adapter_nr = 1

-- devices_addresses[device_index]
abbrev pub device_address : ℕ
device_address = 0x58

abbrev pub idcode_register : ℕ
idcode_register = 0

-- Which nodes open, which addresses can be set, and the registers of a device.
pub record I2c : Type 0 where
  pub opens : Bytes → Bool
  pub sets_slave : ℕ → Bool
  pub read_byte_data : (address register : ℕ) → Option ℕ

-- The exit code, and the code that is reported.
abbrev idcode : Option ℕ → ℤ × Bytes
idcode none = (negsuc 2, [])
idcode (some id) = (pos 0, codes "info: read IDCODE: 0x" ++ (to_hex id ++ codes "\n"))

unfoldable pub detect_main : I2c → ℤ × Bytes
detect_main i2c =
    if not (i2c.opens (codes "/dev/i2c-" ++ to_string adapter_nr))
    then (negsuc 0, [])
    else if not (i2c.sets_slave device_address)
    then (negsuc 1, [])
    else idcode (i2c.read_byte_data device_address idcode_register)
