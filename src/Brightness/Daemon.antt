-- ===== src/Brightness/Daemon.antt =====
-- SocketContext::process, the signal handler and main of src/brightness_daemon.cpp: the daemon
-- after its start, driven by the events that io_context::run_one delivers, in their order.
pub mod Protocol
pub mod Lifecycle
use tjtools.Common.{
  ℕ, ◌+◌, Bool, true, false, ◌&&◌, ◌||◌, not, List, [], ◌∷◌, ◌++◌, Bytes, ltb, ◌==◌, if◌then◌else◌,
  length, take, replicate, min,
}
use tjtools.Brightness.Backlight.{
  Exit, returned, thrown, undefined, Io, BacklightContext, Call, restore_state, save_state,
}
use tjtools.Brightness.Frame.{Entry, short_frame, malformed_frame, failed, frame_len, handle_frame}

-- Is a receive pending, is the loop to go on, and has a frame led to undefined behaviour?
-- `journal` is what has been logged, the last line first.
pub record Daemon : Type 0 where
  pub context : BacklightContext
  pub verbose : Bool
  pub armed : Bool
  pub running : Bool
  pub lost : Bool
  pub journal : List Entry

-- A receive error; a datagram; a signal, or an error of the wait for one.
pub data Event : Type 0 where
  receive_error : Event
  datagram : Io → Bytes → Event
  signalled : Bool → Event

abbrev pub log : Entry → Daemon → Daemon
log entry d = record d { journal = entry ∷ d.journal }

-- handleFrame inside its try block: a runtime_error is logged.
abbrev pub settle : List Entry → Call → Daemon → Daemon
settle entries (returned, ctx) d = record d { context = ctx; journal = entries ++ d.journal }
settle entries (thrown e, ctx) d = record d {
  context = ctx;
  journal = failed e ∷ (entries ++ d.journal);
}
settle entries (undefined, ctx) d = record d {
  context = ctx;
  lost = true;
  journal = entries ++ d.journal;
}

-- The receive buffer: 64 bytes, zero before the datagram is written to them. Of a longer datagram
-- the rest is lost.
unfoldable pub received : Bytes → Bytes
received sent = take 64 (sent ++ replicate 64 0)

abbrev pub bytes_received : Bytes → ℕ
bytes_received sent = min 64 (length sent)

-- The handler of a receive that has no error.
unfoldable pub receive : Io → ℕ → Bytes → Daemon → Daemon
receive io bytes_transferred buffer d =
    let frame = handle_frame io d.verbose buffer d.context in
    if ltb bytes_transferred 2
    then log short_frame d
    else if ltb 32 (frame_len buffer) || not (frame_len buffer + 2 == bytes_transferred)
    then log malformed_frame d
    else settle frame.0 frame.1 d

-- After a receive error the socket is not read again.
unfoldable pub step : Daemon → Event → Daemon
step d receive_error = record d { armed = false }
step d (datagram io sent) =
    if d.armed then receive io (bytes_received sent) (received sent) d else d
step d (signalled true) = record d { running = false }
step d (signalled false) = d

-- `while (running) ioc.run_one()`, up to the last event given.
unfoldable pub run : Daemon → List Event → Daemon
run d [] = d
run d (e ∷ events) = let next = run (step d e) events in if d.running && not d.lost then next else d

abbrev pub started : Bool → BacklightContext → Daemon
started verbose ctx = record {
  context = ctx;
  verbose = verbose;
  armed = true;
  running = true;
  lost = false;
  journal = [];
}

-- main from restoreState on; an exception of restoreState ends the program.
abbrev pub after_restore : Io → List Event → Call → Call
after_restore io events (returned, ctx) =
    let d = run (started false ctx) events in
    if d.lost then (undefined, d.context) else save_state io d.context
after_restore io events (thrown e, ctx) = (thrown e, ctx)
after_restore io events (undefined, ctx) = (undefined, ctx)

unfoldable pub daemon_main : Io → List Event → Io → BacklightContext → Call
daemon_main at_start events at_end ctx = after_restore at_end events (restore_state at_start ctx)
