-- ===== src/Tests/Backlight.antt =====
-- The backlight of src/brightness_daemon.cpp on concrete inputs.
use tjtools.Common.{◌≡◌, refl, true, [], ◌∷◌, codes, arith, le32, ltb, if◌then◌else◌, ◌+◌, ◌^◌}
use tjtools.Common.Int.{pos, negsuc, pos_part}
use tjtools.Brightness.Backlight.{
  Io, Storage, BacklightContext, set, set_state, modify_state, save_state, restore_state, undefined,
  thrown, value_too_large,
}
use tjtools.Brightness.Backlight.Modify.{clamped_sum, modify_state_cases}
use tjtools.Brightness.Backlight.Persistence.{Holds}

abbrev willing : Io
willing = record { accepts = true; stores = true; left = []; truncates = true }

abbrev stored : Storage
stored = record { content = le32 80; position = 0; good = true }

abbrev panel : BacklightContext
panel = record {
  powersave_value = 10;
  current_brightness = 30;
  max_brightness = 100;
  node = codes "30" ∷ [];
  node_good = true;
  storage = stored;
}

stored-Holds : Holds stored 80
stored-Holds = record { usable = refl; at_start = refl; rest = []; content = refl }

raise_and_clamp : (modify_state willing (pos 500) panel).1.current_brightness ≡ 100
unfolding modify_state
raise_and_clamp = refl

lower_and_clamp : (modify_state willing (negsuc 500) panel).1.node ≡ codes "0" ∷ codes "30" ∷ []
unfolding modify_state tjtools.Text.to_string
lower_and_clamp = refl

set_too_large : set_state willing 101 panel ≡ (thrown value_too_large, panel)
unfolding set_state
set_too_large = refl

save_then_restore :
    (restore_state willing (save_state willing panel).1).1.node ≡ codes "30" ∷ codes "30" ∷ []
unfolding save_state restore_state tjtools.Text.to_string
save_then_restore = refl

modify_state_cases_example : modify_state willing (negsuc 4) panel ≡ (
    if ltb (30 + pos_part (negsuc 4)) (2 ^ 31)
    then set willing (clamped_sum 100 30 (negsuc 4)) panel
    else (undefined, panel))
modify_state_cases_example =
    modify_state_cases willing (negsuc 4) panel (omega arith) (omega arith) (omega arith)
