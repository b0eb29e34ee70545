-- ===== src/Amp/Control.antt =====
-- src/clevo_amp_control.c: the modes, the amplifier that is opened, and main. What sscanf gives of an
-- argument, the answers of the kernel and the value of an uninitialised variable are parameters; calloc
-- is taken to succeed.
use tjtools.Common.{
  ℕ, Bool, true, false, not, List, [], ◌∷◌, Option, none, some, Bytes, codes, equal, get_elem?,
  if◌then◌else◌,
}
use tjtools.Common.Int.{ℤ, pos, negsuc}
use tjtools.Amp.{
  History, Device, output_disable_pkt, output_enable_pkt, Effect, no_change, bass_boost, unknown1,
  unknown2, boost_all, unknown3, unknown4, effect_pakets, recovery_pkts, pakets_write,
}
use tjtools.Amp.Adapter.{Entry, scan}

pub data Mode : Type 0 where
  invalid init effect mute unmute recovery : Mode

abbrev pub unfmt_modes : Bytes → Mode
unfmt_modes m =
    if equal m (codes "init")
    then init
    else if equal m (codes "effect")
    then effect
    else if equal m (codes "init")
    then init
    else if equal m (codes "mute")
    then mute
    else if equal m (codes "unmute")
    then unmute
    else if equal m (codes "recovery")
    then recovery
    else invalid

abbrev pub amp_effect : Device → Effect → History → ℤ × History
amp_effect D e h = pakets_write D (effect_pakets e) h

abbrev pub amp_mute : Device → Bool → History → ℤ × History
amp_mute D state h =
    pakets_write D ((if state then output_disable_pkt else output_enable_pkt) ∷ []) h

abbrev pub amp_init : Device → History → ℤ × History
amp_init D h = amp_effect D bass_boost h

abbrev pub amp_recovery : Device → History → ℤ × History
amp_recovery D h = pakets_write D recovery_pkts h

-- The conversion of a number to the enumeration; from 7 (num_effects) on there is none.
abbrev pub effect_of : ℕ → Option Effect
effect_of =
    get_elem? (no_change ∷ bass_boost ∷ unknown1 ∷ unknown2 ∷ boost_all ∷ unknown3 ∷ unknown4 ∷ [])

-- What a run of the program finds: the entries of the directory if it opens, the value that i2c_idx
-- has at the start, whether the device file of an adapter opens, what ioctl returns for the address,
-- and the device at the adapter.
pub record Host : Type 0 where
  pub directory : Option (List Entry)
  pub i2c_idx : ℤ
  pub opens : ℤ → Bool
  pub on_slave : ℤ → ℤ
  pub device : ℤ → Device
  pub sscanf_u : Bytes → Option ℕ

abbrev is_negative : ℤ → Bool
is_negative (pos n) = false
is_negative (negsuc n) = true

abbrev pub open_index : Host → ℤ → Option ℤ
open_index host i =
    if is_negative i
    then none
    else if not (host.opens i)
    then none
    else if is_negative (host.on_slave i)
    then none
    else some i

-- The adapter on which the amplifier is opened.
unfoldable pub open_amplifier : Host → Option ℤ
open_amplifier host = elim host.directory [
  | none ↦ none
  | some entries ↦ open_index host (scan host.i2c_idx entries)
]

abbrev pub parse_effect : (Bytes → Option ℕ) → List Bytes → Option Effect
parse_effect sscanf_u [] = none
parse_effect sscanf_u (arg ∷ rest) = elim (sscanf_u arg) [ none ↦ none | some n ↦ effect_of n ]

abbrev pub apply : Device → Option Effect → ℤ × History
apply D none = (negsuc 0, [])
apply D (some e) = amp_effect D e []

-- The switch of main, with the arguments after the mode.
abbrev pub run_mode : (Bytes → Option ℕ) → Device → Mode → List Bytes → ℤ × History
run_mode sscanf_u D init rest = amp_init D []
run_mode sscanf_u D effect rest = apply D (parse_effect sscanf_u rest)
run_mode sscanf_u D mute rest = amp_mute D true []
run_mode sscanf_u D unmute rest = amp_mute D false []
run_mode sscanf_u D _ rest = amp_recovery D []

-- The value that main returns, the adapter that it uses, and the transactions on it.
pub record Run : Type 0 where
  pub code : ℤ
  pub adapter : Option ℤ
  pub history : History

abbrev pub finish : ℤ → ℤ × History → Run
finish i (pos n, h) = record { code = pos n; adapter = some i; history = h }
finish i (negsuc n, h) = record { code = negsuc 1; adapter = some i; history = h }

abbrev pub with_mode : Host → ℤ → Mode → List Bytes → Run
with_mode host i invalid rest = record { code = negsuc 1; adapter = some i; history = [] }
with_mode host i mode rest = finish i (run_mode host.sscanf_u (host.device i) mode rest)

abbrev pub opened : Host → Bytes → List Bytes → Option ℤ → Run
opened host m rest none = record { code = negsuc 0; adapter = none; history = [] }
opened host m rest (some i) = with_mode host i (unfmt_modes m) rest

-- The arguments are those after the program's name.
unfoldable pub amp_main : Host → List Bytes → Run
amp_main host [] = record { code = pos 0; adapter = none; history = [] }
amp_main host (m ∷ rest) = opened host m rest (open_amplifier host)
