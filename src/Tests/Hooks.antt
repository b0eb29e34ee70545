-- ===== src/Tests/Hooks.antt =====
-- src/access_blocker.c, src/evdev_keepalive.c and src/awinic_detect.c on concrete inputs.
use tjtools.Common.{
  ℕ, ◌+◌, ◌≡◌, ◌⊎◌, refl, arith, Bool, true, false, [], ◌∷◌, ◌++◌, Option, none, some, Bytes, codes,
  ◌==◌, if◌then◌else◌, equal, replicate,
}
use tjtools.Common.Int.{pos}
use tjtools.AccessBlocker.{
  blocked_paths, fill, is_blocked, hook_init, drm_get_version, gbm_create_device,
}
use tjtools.AccessBlocker.Blocking.{Blocks, hooks_block_iff}
use tjtools.AwinicDetect.{I2c, detect_main}
use tjtools.EvdevKeepalive.{
  sigint, sigterm, advance, beginning, opened, suspended, running, exited, run,
}
use tjtools.EvdevKeepalive.Signals.{early, run_signals}

abbrev dlsym : Bytes → Option (ℕ → ℕ)
dlsym name = some (λ fd. fd + 1)

abbrev stat : Bytes → Option ℕ
stat path =
    if equal path (codes "/dev/dri/card0")
    then some 5
    else if equal path (codes "/dev/dri/renderD128")
    then some 6
    else none

abbrev fstat : ℕ → Option ℕ
fstat fd = if fd == 3 then some 6 else some 9

hooks_block_iff_example :
    let hooks = hook_init ℕ dlsym stat in
    let IsBlocked = (node : ℕ) × (fstat 3 ≡ some node) × Blocks stat node blocked_paths in
    (IsBlocked
      × (drm_get_version ℕ hooks fstat 3 ≡ none)
      × (gbm_create_device ℕ hooks fstat 3 ≡ none))
    ⊎ ((¬ IsBlocked)
        × (drm_get_version ℕ hooks fstat 3 ≡ some 4)
        × (gbm_create_device ℕ hooks fstat 3 ≡ some 4))
hooks_block_iff_example =
    hooks_block_iff ℕ dlsym stat fstat (λ fd. fd + 1) (λ fd. fd + 1) 3 refl refl

-- Without the first device, the second is not blocked, and the inode 0 is.
abbrev only_render : Bytes → Option ℕ
only_render path = if equal path (codes "/dev/dri/renderD128") then some 6 else none

render_passes :
    (is_blocked (fill only_render blocked_paths) 6 ≡ false)
    × (is_blocked (fill only_render blocked_paths) 0 ≡ true)
unfolding is_blocked fill equal
render_passes = (refl, refl)

abbrev one_device : Bytes → Bool
one_device path = equal path (codes "/dev/input/event3")

event3_opens : one_device (codes "/dev/input/" ++ codes "event3") ≡ true
unfolding equal
event3_opens = refl

run_signals_example :
    (run one_device (codes "event3" ∷ []) (running beginning none) (early (sigint ∷ []) 2)
      ≡ running suspended (some (codes "/dev/input/event3")))
    × (run one_device
          (codes "event3" ∷ [])
          (running beginning none)
          (early (sigint ∷ []) 2 ++ sigterm ∷ (sigint ∷ [] ++ advance ∷ []))
        ≡ exited (pos 0))
run_signals_example =
    run_signals one_device (codes "event3") [] (sigint ∷ []) (sigint ∷ []) 2 sigterm (omega arith)
      event3_opens (tt, tt) (tt, tt) tt

-- Of a longer name, only the first 20 bytes are used.
abbrev cut : Bytes
cut = codes "/dev/input/" ++ replicate 20 b'a'

name_is_cut :
    run (λ path. equal path cut) (replicate 21 b'a' ∷ []) (running beginning none) (advance ∷ [])
    ≡ running opened (some cut)
unfolding run tjtools.EvdevKeepalive.step equal
name_is_cut = refl

-- An amplifier at the first address, whose code is 0x23.
abbrev amplifier : I2c
amplifier = record {
  opens = λ path. equal path (codes "/dev/i2c-1");
  sets_slave = λ address. true;
  read_byte_data = λ address register.
      if address == 0x58 then (if register == 0 then some 0x23 else none) else none;
}

idcode_is_read : detect_main amplifier ≡ (pos 0, codes "info: read IDCODE: 0x23\n")
unfolding detect_main equal tjtools.Text.to_string tjtools.Text.digits_from tjtools.Text.to_hex
    tjtools.Text.hex_from
idcode_is_read = refl
