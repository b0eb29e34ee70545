-- ===== src/Brightness/Backlight/Persistence.antt =====
-- What saveState writes, restoreState applies, once.
use tjtools.Common.{ℕ, ◌≤◌, ◌<◌, ◌^◌, ◌≡◌, true, ◌∷◌, arith, drop, le32, of_le-le32, Bytes, ◌++◌}
use tjtools.Text.{to_string}
use tjtools.Brightness.Backlight.{
  Io, BacklightContext, Storage, returned, save_state, restore_state, good_read, stored_word,
  emptied,
}
use tjtools.Brightness.Backlight.Bounds.{Inv}

-- The storage file begins with the word `value`, and can be read.
pub record Holds (s : Storage) (value : ℕ) : Type 0 where
  pub usable : s.good ≡ true
  pub at_start : s.position ≡ 0
  pub rest : Bytes
  pub content : s.content ≡ le32 value ++ rest

pub save_state-Holds :
    (io : Io) (ctx : BacklightContext)
    → Inv ctx
    → (save_state io ctx).0 ≡ returned
    → Holds (save_state io ctx).1.storage ctx.current_brightness
unfolding save_state
save_state-Holds io ctx v e = record {
  usable = ground arith;
  at_start = ground arith;
  rest = drop 4 ctx.storage.content;
  content = ground arith;
}

Holds-good_read :
    (s : Storage) (value : ℕ)
    → Holds s value
    → value < 2 ^ 32
    → (good_read s ≡ true) × (stored_word s ≡ value)
unfolding good_read
Holds-good_read s value h small = (
  rw (h.usable, h.at_start, h.content) (ground arith),
  rw (h.at_start, h.content) (of_le-le32 value small),
)

-- The state of a daemon that has applied a stored brightness.
abbrev pub restored : ℕ → BacklightContext → BacklightContext
restored value ctx = record ctx {
  current_brightness = value;
  node = to_string value ∷ ctx.node;
  storage = emptied ctx.storage;
}

-- A stored brightness is applied, whoever stored it, and the file is empty then, if this daemon's
-- device allows and takes the value, its stream is good and the file can be truncated.
pub restore_state_lem :
    (io : Io) (value : ℕ) (ctx : BacklightContext)
    → Holds ctx.storage value
    → value < 2 ^ 32
    → value ≤ ctx.max_brightness
    → ctx.node_good ≡ true
    → io.accepts ≡ true
    → io.truncates ≡ true
    → restore_state io ctx ≡ (returned, restored value ctx)
unfolding restore_state
restore_state_lem io value ctx h small fits good a t =
    let (readable, word) = Holds-good_read ctx.storage value h small in
    ground (arith, readable, word)

-- Where the file can be truncated, a second restoration changes neither the brightness nor the node.
pub restore_state_twice :
    (io later : Io) (ctx : BacklightContext)
    → io.truncates ≡ true
    → let once = (restore_state io ctx).1 in
      let twice = (restore_state later once).1 in
      (twice.current_brightness ≡ once.current_brightness) × (twice.node ≡ once.node)
unfolding restore_state
restore_state_twice io later ctx t = ground arith
