-- ===== src/Tests/Daemon.antt =====
-- The daemon of src/brightness_daemon.cpp on concrete inputs.
use tjtools.Common.{◌++◌, ◌≡◌, refl, true, false, List, [], ◌∷◌, codes, arith, le32, ◌⊎◌}
use tjtools.Common.Int.{negsuc}
use tjtools.Brightness.Backlight.{Io, Storage, BacklightContext, restore_state, returned}
use tjtools.Brightness.Backlight.Bounds.{Inv}
use tjtools.Brightness.Frame.{handling}
use tjtools.Brightness.Frame.Commands.{Command, set_to, modify_by, IsValid, encode, execute}
use tjtools.Brightness.Daemon.{
  Daemon, Event, datagram, signalled, receive_error, step, settle, run, started, daemon_main,
}
use tjtools.Brightness.Daemon.Protocol.{
  reported, loses, type_of, IsIgnored, step-encode, step-encode_or_IsIgnored,
}
use tjtools.Brightness.Daemon.Lifecycle.{run-Inv, run_stream_failure}

abbrev willing : Io
willing = record { accepts = true; stores = true; left = []; truncates = true }

abbrev refusing : Io
refusing = record { accepts = false; stores = true; left = []; truncates = true }

abbrev panel : BacklightContext
panel = record {
  powersave_value = 10;
  current_brightness = 30;
  max_brightness = 100;
  node = codes "30" ∷ [];
  node_good = true;
  storage = record { content = []; position = 0; good = true };
}

abbrev broken : BacklightContext
broken = record panel { node_good = false }

panel-Inv : Inv panel
unfolding tjtools.Text.to_string
panel-Inv = record { in_range = omega arith; shown = λ h. refl; at_start = λ h. refl }

abbrev day : List Event
day =
    datagram willing (encode (set_to 50))
    ∷ datagram willing (encode (modify_by (negsuc 9)))
    ∷ datagram willing (7 ∷ 0 ∷ [])
    ∷ signalled true
    ∷ datagram willing (encode (set_to 99))
    ∷ []

day_brightness : (run (started false panel) day).context.current_brightness ≡ 40
unfolding run step tjtools.Brightness.Daemon.receive tjtools.Brightness.Daemon.received
    tjtools.Brightness.Frame.handle_frame tjtools.Brightness.Frame.command_type
    tjtools.Brightness.Frame.dispatch tjtools.Brightness.Backlight.set_state
    tjtools.Brightness.Backlight.modify_state
day_brightness = refl

day_stored : (daemon_main willing day willing panel).1.storage.content ≡ le32 40
unfolding daemon_main restore_state run step tjtools.Brightness.Daemon.receive
    tjtools.Brightness.Daemon.received tjtools.Brightness.Frame.handle_frame
    tjtools.Brightness.Frame.command_type tjtools.Brightness.Frame.dispatch
    tjtools.Brightness.Backlight.set_state tjtools.Brightness.Backlight.modify_state
    tjtools.Brightness.Backlight.save_state
day_stored = refl

abbrev last : BacklightContext
last = record panel {
  current_brightness = 40;
  node = codes "40" ∷ codes "50" ∷ codes "30" ∷ [];
  storage = record { content = le32 40; position = 0; good = true };
}

day_ends : daemon_main willing day willing panel ≡ (returned, last)
unfolding daemon_main restore_state run step tjtools.Brightness.Daemon.receive
    tjtools.Brightness.Daemon.received tjtools.Brightness.Frame.handle_frame
    tjtools.Brightness.Frame.command_type tjtools.Brightness.Frame.dispatch
    tjtools.Brightness.Backlight.set_state tjtools.Brightness.Backlight.modify_state
    tjtools.Brightness.Backlight.save_state tjtools.Text.to_string
day_ends = refl

step-encode_example :
    step (started true panel) (datagram willing (encode (set_to 50)))
    ≡ record (started true panel) {
      context = (execute willing (set_to 50) panel).1;
      lost = loses (execute willing (set_to 50) panel).0 false;
      journal = reported true (type_of (set_to 50)) (execute willing (set_to 50) panel).0 ++ [];
    }
step-encode_example = step-encode willing (set_to 50) (started true panel) (omega arith) refl

step-encode_or_IsIgnored_example :
    ((cmd : Command) × IsValid cmd × (9 ∷ 0 ∷ [] ≡ encode cmd))
    ⊎ IsIgnored willing (9 ∷ 0 ∷ []) (started true panel)
step-encode_or_IsIgnored_example =
    step-encode_or_IsIgnored willing (9 ∷ 0 ∷ []) (started true panel)
      (omega arith, (omega arith, tt))

run-Inv_example : Inv (run (started false panel) day).context
run-Inv_example = run-Inv (started false panel) day panel-Inv

run_stream_failure_example :
    let ctx = (run (started false broken) day).context in
    (ctx.node_good ≡ false) × (ctx.current_brightness ≡ 30) × (ctx.node ≡ codes "30" ∷ [])
run_stream_failure_example = run_stream_failure (started false broken) day refl
