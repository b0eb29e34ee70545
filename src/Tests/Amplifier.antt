-- ===== src/Tests/Amplifier.antt =====
-- src/clevo_amp_control.c on concrete inputs: a device that never fails and keeps what is written.
use tjtools.Common.{
  ℕ, ◌+◌, ◌-◌, ◌≡◌, refl, Bool, true, false, List, [], ◌∷◌, Option, none, some, Bytes, codes, map,
  ap, ◌∙◌, sym, equal, ◌⊎◌, inl, inr, ◌==◌, if◌then◌else◌, arith,
}
use tjtools.Common.Int.{pos}
use tjtools.Amp.{Device, boost_all, effects_cmds, effects_vals}
use tjtools.Amp.Plan.{IsNegative}
use tjtools.Amp.Registers.{registers, IsMemory}
use tjtools.Amp.Adapter.{Entry, scan, chosen, adapters, scan-chosen}
use tjtools.Amp.Control.{Host, amp_effect, amp_main, open_amplifier}
use tjtools.Amp.Operations.{
  IsUnchanged, amp_effect-registers, effect_orders, asks_effect, IsAnswer, amp_main-IsAnswer,
}

abbrev initial : ℕ → ℕ
initial r = r + 1

abbrev amplifier : Device
amplifier = record {
  on_write = λ h cmd val. pos 0;
  on_read = λ h cmd. (pos 0, registers initial h cmd);
}

amplifier-IsMemory : IsMemory initial amplifier
amplifier-IsMemory h cmd val (n, e) = ap (λ r. r.1) (sym e)

amp_effect-registers_example :
    let r = amp_effect amplifier boost_all [] in
    ((r.0 ≡ pos 0)
      × (map (registers initial r.1) effects_cmds ≡ effects_vals boost_all)
      × (registers initial r.1 0x00 ≡ 0x82))
    ⊎ (IsNegative r.0
        × (IsUnchanged initial amplifier amplifier-IsMemory [] r.1
            ⊎ (registers initial r.1 0x00 ≡ 0x86)))
amp_effect-registers_example =
    amp_effect-registers initial amplifier amplifier-IsMemory boost_all []

-- The second of two adapters matches.
abbrev entries : List Entry
entries =
    record { index = none; name = none }
    ∷ record { index = some (pos 0); name = some (some (codes "NVIDIA i2c adapter 1\n")) }
    ∷ record { index = some (pos 3); name = some (some (codes "SMBus I801 adapter at efa0\n")) }
    ∷ []

scan-chosen_example : scan (pos 9) entries ≡ chosen (pos 9) (adapters entries)
scan-chosen_example = scan-chosen (pos 9) entries

abbrev host : List Entry → Host
host listed = record {
  directory = some listed;
  i2c_idx = pos 9;
  opens = λ i. true;
  on_slave = λ i. pos 0;
  device = λ i. amplifier;
  sscanf_u = λ arg. if equal arg (codes "4") then some 4 else none;
}

host_opens : open_amplifier (host entries) ≡ some (pos 3)
unfolding open_amplifier scan tjtools.Common.equal
host_opens = refl

four_is_read : (host entries).sscanf_u (codes "4") ≡ some 4
unfolding equal
four_is_read = refl

amp_main-IsAnswer_example :
    IsAnswer amplifier
      (some (effect_orders boost_all))
      (amp_main (host entries) (codes "effect" ∷ codes "4" ∷ []))
amp_main-IsAnswer_example =
    amp_main-IsAnswer (host entries) (codes "effect") (codes "4" ∷ []) (pos 3)
      (some (effect_orders boost_all)) host_opens (asks_effect boost_all four_is_read)

-- Adapters whose name cannot be opened: the last of them is used, though nothing is known of it.
unchecked_is_used :
    open_amplifier (
      host (
        record { index = some (pos 0); name = none }
        ∷ record { index = some (pos 1); name = none }
        ∷ []))
    ≡ some (pos 1)
unfolding open_amplifier scan
unchecked_is_used = refl

-- No adapter at all: the value of the uninitialised variable is used.
uninitialised_is_used : open_amplifier (host []) ≡ some (pos 9)
unfolding open_amplifier scan
uninitialised_is_used = refl

-- An empty name matches.
empty_name_matches :
    open_amplifier (host (record { index = some (pos 4); name = some (some []) } ∷ []))
    ≡ some (pos 4)
unfolding open_amplifier scan tjtools.Common.equal
empty_name_matches = refl
