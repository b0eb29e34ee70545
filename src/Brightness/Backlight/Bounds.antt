-- ===== src/Brightness/Backlight/Bounds.antt =====
-- The brightness stays within the maximum, and the node holds what current_brightness_ says.
use tjtools.Common.{ℕ, ◌≤◌, ◌≡◌, true, List, [], ◌∷◌, Bytes, arith}
use tjtools.Common.Int.{ℤ}
use tjtools.Text.{to_string}
use tjtools.Brightness.Backlight.{
  Io, BacklightContext, set, modify_state, save_state, restore_state,
}

-- The text that the node has taken last.
abbrev pub Shows : List Bytes → ℕ → Type 0
Shows [] value = Unit
Shows (text ∷ _) value = text ≡ to_string value

-- While the stream is good, the last text in the node is the current brightness. Between two
-- calls the storage file stands at its start.
pub record Inv (ctx : BacklightContext) : Type 0 where
  pub in_range : ctx.current_brightness ≤ ctx.max_brightness
  pub shown : ctx.node_good ≡ true → Shows ctx.node ctx.current_brightness
  pub at_start : ctx.storage.good ≡ true → ctx.storage.position ≡ 0

pub set-Inv : (io : Io) (value : ℕ) (ctx : BacklightContext) → Inv ctx → Inv (set io value ctx).1
unfolding set
set-Inv io value ctx v = ground arith

pub modify_state-Inv :
    (io : Io) (value : ℤ) (ctx : BacklightContext) → Inv ctx → Inv (modify_state io value ctx).1
unfolding modify_state
modify_state-Inv io value ctx v = ground arith

pub save_state-Inv : (io : Io) (ctx : BacklightContext) → Inv ctx → Inv (save_state io ctx).1
unfolding save_state
save_state-Inv io ctx v = ground arith

pub restore_state-Inv : (io : Io) (ctx : BacklightContext) → Inv ctx → Inv (restore_state io ctx).1
unfolding restore_state
restore_state-Inv io ctx v = ground arith
