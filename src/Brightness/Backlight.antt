-- ===== src/Brightness/Backlight.antt =====
-- class BacklightContext of src/brightness_daemon.cpp: the brightness node and the storage file.
-- A method takes what the kernel answers during the call, and returns how it ends with the state
-- that it leaves; what was changed before an exception stays changed.
pub mod Bounds
pub mod Modify
pub mod Persistence
use tjtools.Common.{
  ℕ, zero, suc, ◌+◌, ◌<◌, ◌^◌, Bool, true, false, ◌&&◌, List, [], ◌∷◌, ◌++◌, Bytes, ltb, leb, not,
  if◌then◌else◌, of_le, le32, length, take, drop, replicate,
}
use tjtools.Common.Int.{ℤ, pos, negsuc, ◌+ℤ◌, ltb_ℤ, to_int, to_unsigned}
use tjtools.Text.{to_string}

-- The exceptions that are a std::runtime_error.
pub data Error : Type 0 where
  value_too_large stream_failure save_failed ftruncate_failed : Error
  malformed_set_state malformed_modify_state malformed_save_state : Error
  malformed_restore_state malformed_set_powersave : Error

-- `undefined` is undefined behaviour: the source gives no meaning to what follows.
pub data Exit : Type 0 where
  returned undefined : Exit
  thrown : Error → Exit

-- The answers of the kernel during one call: does the node take the value, does the storage file
-- take the write, what does the file hold after a write that it did not take, and does ftruncate
-- succeed?
pub record Io : Type 0 where
  pub accepts : Bool
  pub stores : Bool
  pub left : Bytes
  pub truncates : Bool

-- storage_stream_: the file, the one position of its buffer, and good().
pub record Storage : Type 0 where
  pub content : Bytes
  pub position : ℕ
  pub good : Bool

-- `node` lists the texts that the brightness node has taken, the last one first, and
-- `node_good` is the state of brightness_stream_.
pub record BacklightContext : Type 0 where
  pub powersave_value : ℕ
  pub current_brightness : ℕ
  pub max_brightness : ℕ
  pub node : List Bytes
  pub node_good : Bool
  pub storage : Storage

abbrev pub Call : Type 0
Call = Exit × BacklightContext

-- An insertion into a bad stream throws. A value that is inserted is buffered, and is taken or
-- refused by the flush, after current_brightness_ has been set.
unfoldable pub set : Io → ℕ → BacklightContext → Call
set io value ctx =
    if ltb ctx.max_brightness value
    then (thrown value_too_large, ctx)
    else if not ctx.node_good
    then (thrown stream_failure, ctx)
    else if io.accepts
    then (returned, record ctx { current_brightness = value; node = to_string value ∷ ctx.node })
    else (thrown stream_failure, record ctx { current_brightness = value; node_good = false })

unfoldable pub set_state : Io → ℕ → BacklightContext → Call
unfolding set
set_state io value ctx = set io value ctx

-- Is the sum of two ints an int? If not, the addition is undefined.
unfoldable pub fits_int : ℤ → Bool
fits_int (pos n) = ltb n (2 ^ 31)
fits_int (negsuc n) = ltb n (2 ^ 31)

abbrev pub raise_to_zero : ℤ → ℤ
raise_to_zero tmp = if ltb_ℤ tmp (pos 0) then pos 0 else tmp

abbrev pub lower_to_max : ℕ → ℤ → ℤ
lower_to_max max tmp = if ltb_ℤ (to_int max) tmp then to_int max else tmp

unfoldable pub modify_state : Io → ℤ → BacklightContext → Call
unfolding set fits_int
modify_state io value ctx =
    let tmp = to_int ctx.current_brightness +ℤ value in
    let clamped = lower_to_max ctx.max_brightness (raise_to_zero tmp) in
    if fits_int tmp then set io (to_unsigned clamped) ctx else (undefined, ctx)

-- The file after a write at a position, with zeros in the gap beyond its end.
abbrev pub overwrite : Bytes → ℕ → Bytes → Bytes
overwrite content position new =
    take position (content ++ replicate position 0) ++ (new ++ drop (position + length new) content)

-- write() and flush(): nothing is written to a bad stream.
unfoldable pub write : Io → Bytes → Storage → Storage
write io new s =
    if not s.good
    then s
    else if io.stores
    then record s {
      content = overwrite s.content s.position new;
      position = s.position + length new;
    }
    else record s { content = io.left; good = false }

unfoldable pub save_state : Io → BacklightContext → Call
unfolding write
save_state io ctx =
    let s = write io (le32 ctx.current_brightness) ctx.storage in
    if not s.good
    then (thrown save_failed, record ctx { storage = s })
    else (returned, record ctx { storage = record s { position = 0 } })

-- Does read() find all of the four bytes?
unfoldable pub good_read : Storage → Bool
good_read s = s.good && leb (s.position + 4) (length s.content)

abbrev pub stored_word : Storage → ℕ
stored_word s = of_le (take 4 (drop s.position s.content))

-- clear() and seekg(0), then the truncation. The seekg behind it is taken to succeed: bytes of a save
-- that has failed, which it would write again, are not kept.
abbrev pub rewound : Storage → Storage
rewound s = record s { position = 0; good = true }

abbrev pub emptied : Storage → Storage
emptied s = record { content = []; position = 0; good = true }

-- An exception of `set` is ignored.
unfoldable pub restore_state : Io → BacklightContext → Call
unfolding set good_read
restore_state io ctx =
    if not io.truncates
    then (thrown ftruncate_failed, record ctx { storage = rewound ctx.storage })
    else if not (good_read ctx.storage)
    then (returned, record ctx { storage = emptied ctx.storage })
    else (
      returned,
      (set io (stored_word ctx.storage) (record ctx { storage = emptied ctx.storage })).1,
    )

unfoldable pub set_powersave : Io → BacklightContext → Call
unfolding set
set_powersave io ctx = set io ctx.powersave_value ctx
