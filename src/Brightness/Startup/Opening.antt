-- ===== src/Brightness/Startup/Opening.antt =====
-- BacklightContext::init of src/brightness_daemon.cpp: the state in which the daemon begins.
use tjtools.Common.{
  ℕ, ◌<◌, ◌≤◌, ◌^◌, ◌≡◌, ◌≢◌, refl, sym, ap, ◌∙◌, arith, Bool, true, [], ◌∷◌, Option, none, some,
  Bytes, List, codes, if◌then◌else◌, inl, inr,
}
use tjtools.Common.Int.{ℤ, pos, to_int}
use tjtools.Common.Result.{ok}
use tjtools.Common.FilePath.{join}
use tjtools.Text.{extract, stoi, to_string}
use tjtools.Text.RoundTrip.{stoi-to_string, to_string_cons}
use tjtools.Brightness.Backlight.{
  BacklightContext, Storage, Io, set, modify_state, save_state, restore_state,
}
use tjtools.Brightness.Backlight
use tjtools.Brightness.Frame
use tjtools.Brightness.Frame.{frame_value, CommandType, dispatch}
use tjtools.Brightness.Backlight.Bounds.{Inv, restore_state-Inv}
use tjtools.Brightness.Daemon.{Event, started, run}
use tjtools.Brightness.Daemon.Lifecycle.{run-Inv, run-keeps}
use tjtools.Brightness.Sysfs.{Files, defined, lookup_backlight_node, read_sysfs}
use tjtools.Brightness.Sysfs.Reading.{extract_white, read_sysfs_cases}
use tjtools.Brightness.Startup.{Config, Machine, init_backlight, sync, open_state, storage_of}

nil_cons : (c : ℕ) (rest : Bytes) → c ∷ rest ≢ []
nil_cons c rest = λ x. cc

-- The node shows two numbers: a brightness within the maximum.
pub record IsNode (files : Files) (node : Bytes) (current max : ℕ) : Type 0 where
  pub at_max : Bytes
  pub at_brightness : Bytes
  pub max_file : files.read (join node (codes "max_brightness")) ≡ some at_max
  pub brightness_file : files.read (join node (codes "brightness")) ≡ some at_brightness
  pub max_shown : extract at_max ≡ to_string max
  pub brightness_shown : extract at_brightness ≡ to_string current
  pub within : current ≤ max
  pub max_int : max < 2 ^ 31

read_number :
    (files : Files) (path content : Bytes) (n : ℕ)
    → files.read path ≡ some content
    → extract content ≡ to_string n
    → read_sysfs files path ≡ defined (some (to_string n))
read_number files path content n e f =
    let (c, rest, g) = to_string_cons n in
    elim (read_sysfs_cases files path content e) [
      | inl (some_word, r) ↦ r ∙ ap (λ t. defined (some t)) f
      | inr (white, r) ↦ absurd (nil_cons c rest (sym (f ∙ g) ∙ extract_white content white))
    ]

sync_number :
    (content : Bytes) (n : ℕ)
    → extract content ≡ to_string n
    → n < 2 ^ 31
    → sync content ≡ ok (pos n)
sync_number content n f h =
    let (c, rest, g) = to_string_cons n in
    let number = ap (stoi 10) (sym g) ∙ stoi-to_string n h in rw (f ∙ g) (rw number refl)

storage_of-start : (o : Option Bytes) → (storage_of o).position ≡ 0
storage_of-start none = refl
storage_of-start (some content) = refl

-- With a directory for the state file there is a stream for it, good or bad, at its start.
open_state-start :
    (m : Machine) (state_file : Option Bytes)
    → m.has_directory ≡ true
    → (storage : Storage) × (open_state m state_file ≡ ok storage) × (storage.position ≡ 0)
open_state-start m none e =
    let file : Option Bytes =
      if m.makes_file then (if m.storage_opens then some [] else none) else none in
    (storage_of file, simp e refl, storage_of-start file)
open_state-start m (some content) e =
    let file = if m.storage_opens then some content else none in
    (storage_of file, refl, storage_of-start file)

pub init_backlight-Inv :
    (cfg : Config) (m : Machine) (node : Bytes) (current max : ℕ)
    → lookup_backlight_node m.files m.links cfg.identifier m.entries ≡ some (defined (some node))
    → IsNode m.files node current max
    → m.writable ≡ true
    → m.has_directory ≡ true
    → (ctx : BacklightContext) × (init_backlight cfg m ≡ ok ctx)
      × Inv ctx
      × (ctx.current_brightness ≡ current)
      × (ctx.max_brightness ≡ max)
      × (ctx.node ≡ [])
      × (ctx.node_good ≡ true)
      × (open_state m m.state_file ≡ ok ctx.storage)
unfolding init_backlight
init_backlight-Inv cfg m node current max found n w dir =
    let (storage, opened, at_start) = open_state-start m m.state_file dir in
    let maximum = read_number m.files _ n.at_max max n.max_file n.max_shown in
    let number = stoi-to_string max n.max_int in
    let synced =
      sync_number n.at_brightness current n.brightness_shown (omega (arith, n.within, n.max_int)) in
    (
      record {
        powersave_value = cfg.powersave_value;
        current_brightness = current;
        max_brightness = max;
        node = [];
        node_good = true;
        storage = storage;
      },
      simp (found, maximum, number, w, n.brightness_file, synced, opened) refl,
      record { in_range = n.within; shown = λ x. tt; at_start = λ x. at_start },
      refl,
      refl,
      refl,
      refl,
      opened,
    )

-- The number in the node: what it held when it was opened, until a text is written to it.
abbrev pub displayed : Bytes → List Bytes → Bytes
displayed first [] = first
displayed first (text ∷ _) = text

-- The brightness is within the maximum, and the node holds it as long as its stream is good.
abbrev pub Mirrors : Bytes → ℕ → BacklightContext → Type 0
Mirrors first max ctx =
    (ctx.max_brightness ≡ max)
    × (ctx.current_brightness ≤ max)
    × (ctx.node_good ≡ true → displayed first ctx.node ≡ to_string ctx.current_brightness)

set-Mirrors :
    (first : Bytes) (max : ℕ) (io : Io) (value : ℕ) (ctx : BacklightContext)
    → Mirrors first max ctx
    → Mirrors first max (set io value ctx).1
unfolding set
set-Mirrors first max io value ctx v = ground arith

modify_state-Mirrors :
    (first : Bytes) (max : ℕ) (io : Io) (value : ℤ) (ctx : BacklightContext)
    → Mirrors first max ctx
    → Mirrors first max (modify_state io value ctx).1
unfolding modify_state
modify_state-Mirrors first max io value ctx v = ground arith

restore_state-Mirrors :
    (first : Bytes) (max : ℕ) (io : Io) (ctx : BacklightContext)
    → Mirrors first max ctx
    → Mirrors first max (restore_state io ctx).1
unfolding restore_state
restore_state-Mirrors first max io ctx v = ground arith

save_state-Mirrors :
    (first : Bytes) (max : ℕ) (io : Io) (ctx : BacklightContext)
    → Mirrors first max ctx
    → Mirrors first max (save_state io ctx).1
unfolding save_state
save_state-Mirrors first max io ctx v = ground arith

dispatch-Mirrors :
    (first : Bytes) (max : ℕ) (ct : CommandType) (io : Io) (buffer : Bytes) (ctx : BacklightContext)
    → Mirrors first max ctx
    → Mirrors first max (dispatch ct io buffer ctx).1
unfolding dispatch Backlight.set_state Backlight.set_powersave
dispatch-Mirrors first max Frame.set_state io buffer ctx v =
    ground (arith, set-Mirrors first max io (frame_value buffer) ctx v)
dispatch-Mirrors first max Frame.modify_state io buffer ctx v =
    ground (arith, modify_state-Mirrors first max io (to_int (frame_value buffer)) ctx v)
dispatch-Mirrors first max Frame.save_state io buffer ctx v =
    ground (arith, save_state-Mirrors first max io ctx v)
dispatch-Mirrors first max Frame.restore_state io buffer ctx v =
    ground (arith, restore_state-Mirrors first max io ctx v)
dispatch-Mirrors first max Frame.set_powersave io buffer ctx v =
    ground (arith, set-Mirrors first max io ctx.powersave_value ctx v)

-- A backlight that shows a brightness within its maximum is opened, if the nodes can be, and the state
-- file or its directory exists. The daemon takes over the two numbers, and from then on, whatever
-- datagrams arrive and whatever the kernel answers to them, the maximum stays, and the brightness within
-- it. As long as the stream of the node is good, the node holds the brightness of the daemon: the text
-- that was written to it last, or, before any is written, the number that it showed.
pub init_backlight-run :
    (cfg : Config) (m : Machine) (node : Bytes) (current max : ℕ) (verbose : Bool) (io : Io)
    (events : List Event)
    → lookup_backlight_node m.files m.links cfg.identifier m.entries ≡ some (defined (some node))
    → IsNode m.files node current max
    → m.writable ≡ true
    → m.has_directory ≡ true
    → (ctx : BacklightContext) × (init_backlight cfg m ≡ ok ctx)
      × (ctx.current_brightness ≡ current)
      × Mirrors
          (to_string current)
          max
          (run (started verbose (restore_state io ctx).1) events).context
      × Inv (run (started verbose (restore_state io ctx).1) events).context
init_backlight-run cfg m node current max verbose io events found n w dir =
    let (ctx, opened, inv, same_current, same_max, empty, _, _) =
      init_backlight-Inv cfg m node current max found n w dir in
    let first = to_string current in
    let begins : Mirrors first max ctx = (
      same_max,
      omega (arith, same_current, n.within),
      λ x. ap (displayed first) empty ∙ ap to_string (sym same_current),
    ) in
    (
      ctx,
      opened,
      same_current,
      run-keeps (Mirrors first max) (dispatch-Mirrors first max)
          (started verbose (restore_state io ctx).1) events
          (restore_state-Mirrors first max io ctx begins),
      run-Inv (started verbose (restore_state io ctx).1) events (restore_state-Inv io ctx inv),
    )
