-- ===== src/Brightness/Frame/Commands.antt =====
-- The commands that a client can give, and their frames: the specification of the wire format.
use tjtools.Common.{ℕ, ◌<◌, ◌^◌, [], ◌∷◌, Bytes, le32}
use tjtools.Common.Int.{ℤ, IsInt, to_unsigned}
use tjtools.Brightness.Backlight.{Io, BacklightContext, Call}
use tjtools.Brightness.Backlight

pub data Command : Type 0 where
  set_to : ℕ → Command
  modify_by : ℤ → Command
  save restore powersave : Command

-- The values that fit their fields.
abbrev pub IsValid : Command → Type 0
IsValid (set_to value) = value < 2 ^ 32
IsValid (modify_by value) = IsInt value
IsValid save = Unit
IsValid restore = Unit
IsValid powersave = Unit

abbrev pub encode : Command → Bytes
encode (set_to value) = 0 ∷ 4 ∷ le32 value
encode (modify_by value) = 1 ∷ 4 ∷ le32 (to_unsigned value)
encode save = 2 ∷ 0 ∷ []
encode restore = 3 ∷ 0 ∷ []
encode powersave = 4 ∷ 0 ∷ []

abbrev pub execute : Io → Command → BacklightContext → Call
execute io (set_to value) ctx = Backlight.set_state io value ctx
execute io (modify_by value) ctx = Backlight.modify_state io value ctx
execute io save ctx = Backlight.save_state io ctx
execute io restore ctx = Backlight.restore_state io ctx
execute io powersave ctx = Backlight.set_powersave io ctx
