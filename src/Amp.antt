-- ===== src/Amp.antt =====
-- src/clevo_amp_control.c: the transactions on the bus and the commands of the amplifier. The device
-- answers by the transactions that came before.
pub mod Plan
pub mod Registers
pub mod Adapter
pub mod Control
pub mod Operations
use tjtools.Common.{ℕ, List, [], ◌∷◌, ◌++◌}
use tjtools.Common.Int.{ℤ, pos, negsuc}

-- A transaction and its result: `wrote` and `got` are those for which ioctl did not fail.
pub data Transaction : Type 0 where
  wrote write_failed got : ℕ → ℕ → Transaction
  read_failed : ℕ → Transaction

-- The last transaction first.
abbrev pub History : Type 0
History = List Transaction

-- What ioctl returns, and for a read the byte that it stores as well.
pub record Device : Type 0 where
  pub on_write : History → ℕ → ℕ → ℤ
  pub on_read : History → ℕ → ℤ × ℕ

pub record AmplifierPaket : Type 0 where
  pub cmd : ℕ
  pub val : ℕ

abbrev pub output_disable_pkt : AmplifierPaket
output_disable_pkt = record { cmd = 0x00; val = 0x86 }

abbrev pub output_enable_pkt : AmplifierPaket
output_enable_pkt = record { cmd = 0x00; val = 0x82 }

pub data Effect : Type 0 where
  no_change bass_boost unknown1 unknown2 boost_all unknown3 unknown4 : Effect

-- A row of effects_vals.
abbrev pub effects_vals : Effect → List ℕ
effects_vals no_change = 0x11 ∷ 0x02 ∷ 0x22 ∷ 0x82 ∷ 0x22 ∷ []
effects_vals bass_boost = 0xee ∷ 0x03 ∷ 0x40 ∷ 0x84 ∷ 0xff ∷ []
effects_vals unknown1 = 0xaa ∷ 0x23 ∷ 0x40 ∷ 0x84 ∷ 0x00 ∷ []
effects_vals unknown2 = 0xaa ∷ 0x22 ∷ 0x33 ∷ 0x84 ∷ 0x00 ∷ []
effects_vals boost_all = 0x88 ∷ 0x03 ∷ 0x23 ∷ 0x82 ∷ 0x22 ∷ []
effects_vals unknown3 = 0xaa ∷ 0x23 ∷ 0x41 ∷ 0x84 ∷ 0x00 ∷ []
effects_vals unknown4 = 0xaa ∷ 0x02 ∷ 0x43 ∷ 0x82 ∷ 0x00 ∷ []

abbrev pub effects_cmds : List ℕ
effects_cmds = 0x04 ∷ 0x05 ∷ 0x07 ∷ 0x08 ∷ 0x09 ∷ []

abbrev pub recovery_pkts : List AmplifierPaket
recovery_pkts = record { cmd = 0x0b; val = 0x82 } ∷ record { cmd = 0x0b; val = 0x92 } ∷ []

abbrev pub written : ℤ → ℕ → ℕ → Transaction
written (pos n) cmd val = wrote cmd val
written (negsuc n) cmd val = write_failed cmd val

abbrev pub read : ℤ → ℕ → ℕ → Transaction
read (pos n) cmd val = got cmd val
read (negsuc n) cmd val = read_failed cmd

-- `if (ret < 0)` with a return or a break that gives `code`.
abbrev pub or_fail : ℤ → ℤ × History → (History → ℤ × History) → ℤ × History
or_fail code (pos n, h) k = k h
or_fail code (negsuc n, h) k = (code, h)

module _ (D : Device) where
  abbrev pub i2c_write : ℕ → ℕ → History → ℤ × History
  i2c_write cmd val h = (D.on_write h cmd val, written (D.on_write h cmd val) cmd val ∷ h)

  -- The result of the call, the byte, and the transactions.
  abbrev pub i2c_read : ℕ → History → ℤ × ℕ × History
  i2c_read cmd h = let (ret, val) = D.on_read h cmd in (ret, val, read ret cmd val ∷ h)

  -- One round of the loop of the prolog.
  abbrev pub rewrite_one : ℕ → ℤ × ℕ × History → ℤ × History
  rewrite_one cmd (ret, val, h) = or_fail ret (ret, h) (i2c_write cmd val)

  abbrev pub rewrite_all : List ℕ → History → ℤ × History
  rewrite_all [] h = (pos 0, h)
  rewrite_all (cmd ∷ cmds) h =
      or_fail (negsuc 1) (rewrite_one cmd (i2c_read cmd h)) (rewrite_all cmds)

  unfoldable pub prolog_write : History → ℤ × History
  prolog_write h = or_fail (negsuc 0) (i2c_write 0x0a 0x41 h) (rewrite_all (0x04 ∷ 0x09 ∷ []))

  abbrev pub write_all : List AmplifierPaket → History → ℤ × History
  write_all [] h = (pos 0, h)
  write_all (pkt ∷ pkts) h = or_fail (negsuc 1) (i2c_write pkt.cmd pkt.val h) (write_all pkts)

  unfoldable pub pakets_write : List AmplifierPaket → History → ℤ × History
  pakets_write pkts h = or_fail (negsuc 0) (prolog_write h) (write_all pkts)

-- The commands and the values of one effect, side by side.
abbrev zip_pakets : List ℕ → List ℕ → List AmplifierPaket
zip_pakets (cmd ∷ cmds) (val ∷ vals) = record { cmd = cmd; val = val } ∷ zip_pakets cmds vals
zip_pakets _ _ = []

abbrev pub gen_effect : Effect → List AmplifierPaket
gen_effect effect = zip_pakets effects_cmds (effects_vals effect)

abbrev pub effect_pakets : Effect → List AmplifierPaket
effect_pakets effect = output_disable_pkt ∷ (gen_effect effect ++ output_enable_pkt ∷ [])
