-- ===== src/Brightness/Life/Reboot.antt =====
-- The brightness from one daemon to the next.
use tjtools.Common.{
  ℕ, ◌≤◌, ◌<◌, ◌^◌, ◌≡◌, refl, sym, ap, ◌∙◌, subst, arith, true, List, some, Bytes,
}
use tjtools.Common.Result.{ok, bind_ok, from_ok}
use tjtools.Brightness.Backlight.{Io, BacklightContext, returned, restore_state}
use tjtools.Brightness.Backlight.Bounds.{Inv}
use tjtools.Brightness.Backlight.Persistence.{Holds, restored, restore_state_lem}
use tjtools.Brightness.Daemon.{Event}
use tjtools.Brightness.Daemon.Lifecycle.{daemon_main-IsSaved}
use tjtools.Brightness.Sysfs.{defined, lookup_backlight_node}
use tjtools.Brightness.Startup.{Config, Machine, read_config, init_backlight, open_state, start}
use tjtools.Brightness.Startup.Opening.{IsNode, init_backlight-Inv}
use tjtools.Brightness.Startup.Service.{start_ok}
use tjtools.Brightness.Life.{Host, brightness_main}

-- The backlight of a configuration: its node is found and shows a brightness within its maximum, it can be
-- written to, and there is a directory for the state file.
pub record HasBacklight (cfg : Config) (m : Machine) (max : ℕ) : Type 0 where
  pub node : Bytes
  pub current : ℕ
  pub found :
      lookup_backlight_node m.files m.links cfg.identifier m.entries ≡ some (defined (some node))
  pub shows : IsNode m.files node current max
  pub writable : m.writable ≡ true
  pub has_directory : m.has_directory ≡ true

stored_file :
    (m : Machine) (content : Bytes)
    → m.state_file ≡ some content
    → m.storage_opens ≡ true
    → open_state m m.state_file ≡ ok (record { content = content; position = 0; good = true })
stored_file m content f o = ap (open_state m) f ∙ simp o refl

-- A daemon whose backlight is found, and that is started and stopped in order, has saved its brightness.
saved_at_end :
    (h : Host) (cfg : Config) (max : ℕ) (events : List Event) (last : BacklightContext)
    → read_config h.config ≡ ok cfg
    → HasBacklight cfg h.machine max
    → brightness_main h events ≡ ok (returned, last)
    → Holds last.storage last.current_brightness × (last.current_brightness < 2 ^ 32)
unfolding brightness_main
saved_at_end h cfg max events last r b e =
    let (serving, s, ran) =
      bind_ok (start h.accounts h.config h.machine h.socket h.privileges h.process) _
        (returned, last) e in
    let (cfg', r', init, _, _) =
      start_ok h.accounts h.config h.machine h.socket h.privileges h.process serving s in
    let same_cfg = ap (from_ok cfg) (sym r' ∙ r) in
    let (ctx, opened, inv, _, same_max, _, _, _) =
      init_backlight-Inv cfg h.machine b.node b.current max b.found b.shows b.writable
        b.has_directory in
    let same : serving.context ≡ ctx =
      ap (from_ok ctx) (sym init ∙ ap (λ c. init_backlight c h.machine) same_cfg ∙ opened) in
    daemon_main-IsSaved h.at_start h.at_end events serving.context last (subst Inv (sym same) inv)
      (omega (arith, ap (λ c. c.max_brightness) same, same_max, b.shows.max_int))
      (ap (from_ok (returned, last)) ran)

-- One daemon runs and stops in order; another one, of any version of the configuration, opens a backlight
-- and the state file as the first has left it. Whatever the first was sent, and whatever the kernel
-- answered, the second applies the first one's last brightness, if that is within its maximum, its node
-- takes the value and the state file can be truncated.
pub reboot_restores :
    (h : Host) (cfg next_cfg : Config) (m : Machine) (max next_max : ℕ) (events : List Event)
    (last : BacklightContext) (io : Io)
    → read_config h.config ≡ ok cfg
    → HasBacklight cfg h.machine max
    → brightness_main h events ≡ ok (returned, last)
    → HasBacklight next_cfg m next_max
    → m.state_file ≡ some last.storage.content
    → m.storage_opens ≡ true
    → last.current_brightness ≤ next_max
    → io.accepts ≡ true
    → io.truncates ≡ true
    → (ctx : BacklightContext) × (init_backlight next_cfg m ≡ ok ctx)
      × (restore_state io ctx ≡ (returned, restored last.current_brightness ctx))
reboot_restores h cfg next_cfg m max next_max events last io r b e b' f o fits a t =
    let (stored, small) = saved_at_end h cfg max events last r b e in
    let (ctx, opened, inv, _, same_max, _, good, storage) =
      init_backlight-Inv next_cfg m b'.node b'.current next_max b'.found b'.shows b'.writable
        b'.has_directory in
    let file = stored_file m last.storage.content f o in
    let same = ap (from_ok ctx.storage) (sym storage ∙ file) in
    (
      ctx,
      opened,
      restore_state_lem io last.current_brightness ctx
          (subst (λ s. Holds s last.current_brightness) (sym same)
            (record {
              usable = refl;
              at_start = refl;
              rest = stored.rest;
              content = stored.content;
            }))
          small (omega (arith, fits, same_max)) good a t,
    )
