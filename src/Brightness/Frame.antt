-- ===== src/Brightness/Frame.antt =====
-- CommandFrame and SocketContext::handleFrame of src/brightness_daemon.cpp. A frame is the receive
-- buffer: its type, its length, and the bytes behind them, on a little-endian host.
pub mod Commands
use tjtools.Common.{
  ℕ, zero, suc, Bool, true, false, ◌∷◌, [], List, Option, none, some, Bytes, codes, ◌==◌, not,
  if◌then◌else◌, get_or, take, drop, of_le,
}
use tjtools.Common.Int.{to_int}
use tjtools.Brightness.Backlight.{
  Error, malformed_set_state, malformed_modify_state, malformed_save_state, malformed_restore_state,
  malformed_set_powersave, thrown, returned, Io, BacklightContext, Call,
}
use tjtools.Brightness.Backlight

pub data CommandType : Type 0 where
  set_state modify_state save_state restore_state set_powersave : CommandType

-- The enumerators below Count.
unfoldable pub command_type : ℕ → Option CommandType
command_type zero = some set_state
command_type (suc zero) = some modify_state
command_type (suc (suc zero)) = some save_state
command_type (suc (suc (suc zero))) = some restore_state
command_type (suc (suc (suc (suc zero)))) = some set_powersave
command_type (suc (suc (suc (suc (suc _))))) = none

unfoldable pub to_string : CommandType → Bytes
to_string set_state = codes "SetState"
to_string modify_state = codes "ModifyState"
to_string save_state = codes "SaveState"
to_string restore_state = codes "RestoreState"
to_string set_powersave = codes "SetPowersave"

-- The lines of the journal.
pub data Entry : Type 0 where
  short_frame malformed_frame : Entry
  invalid_type : ℕ → Entry
  handling : CommandType → Entry
  failed : Error → Entry

abbrev pub frame_type : Bytes → ℕ
frame_type buffer = get_or buffer 0 0

abbrev pub frame_len : Bytes → ℕ
frame_len buffer = get_or buffer 1 0

-- SetStateFrame::value and ModifyStateFrame::value, as a bit pattern.
abbrev pub frame_value : Bytes → ℕ
frame_value buffer = of_le (take 4 (drop 2 buffer))

-- The switch over the type.
unfoldable pub dispatch : CommandType → Io → Bytes → BacklightContext → Call
dispatch set_state io buffer ctx =
    if not (frame_len buffer == 4)
    then (thrown malformed_set_state, ctx)
    else Backlight.set_state io (frame_value buffer) ctx
dispatch modify_state io buffer ctx =
    if not (frame_len buffer == 4)
    then (thrown malformed_modify_state, ctx)
    else Backlight.modify_state io (to_int (frame_value buffer)) ctx
dispatch save_state io buffer ctx =
    if not (frame_len buffer == 0)
    then (thrown malformed_save_state, ctx)
    else Backlight.save_state io ctx
dispatch restore_state io buffer ctx =
    if not (frame_len buffer == 0)
    then (thrown malformed_restore_state, ctx)
    else Backlight.restore_state io ctx
dispatch set_powersave io buffer ctx =
    if not (frame_len buffer == 0)
    then (thrown malformed_set_powersave, ctx)
    else Backlight.set_powersave io ctx

-- What is written to the journal on the way, and how the call ends.
unfoldable pub handle_frame : Io → Bool → Bytes → BacklightContext → List Entry × Call
handle_frame io verbose buffer ctx = elim (command_type (frame_type buffer)) [
  | none ↦ (invalid_type (frame_type buffer) ∷ [], (returned, ctx))
  | some ct ↦ (if verbose then handling ct ∷ [] else [], dispatch ct io buffer ctx)
]
