-- ===== src/Brightness/Daemon/Lifecycle.antt =====
-- Whole runs of the daemon: what every sequence of events keeps, and what a stop leaves behind.
use tjtools.Common.{
  ℕ, ◌<◌, ◌^◌, ◌≡◌, refl, subst, ap, Bool, true, false, List, [], ◌∷◌, Bytes, inl, inr,
  Option-cases, if◌then◌else◌, arith,
}
use tjtools.Brightness.Backlight.{
  Exit, returned, thrown, undefined, Io, BacklightContext, Call, restore_state, save_state, set,
  modify_state,
}
use tjtools.Brightness.Backlight.Bounds.{
  Inv, set-Inv, modify_state-Inv, save_state-Inv, restore_state-Inv,
}
use tjtools.Brightness.Backlight.Persistence.{Holds, save_state-Holds}
use tjtools.Brightness.Frame.{
  frame_value, CommandType, set_state, modify_state as mod_state, dispatch, handle_frame,
  command_type, frame_type,
}
use tjtools.Brightness.Daemon.{
  Daemon, Event, received, bytes_received, receive_error, datagram, signalled, receive, step, run,
  daemon_main, settle, started, after_restore,
}
use tjtools.Brightness.Backlight
use tjtools.Brightness.Frame
use tjtools.Common.Int.{to_int}

-- What the five operations keep, a frame keeps, and so does every event.
module _ {ℓ} (P : BacklightContext → Type ℓ)
    (keeps : (ct : CommandType) (io : Io) (buffer : Bytes) (ctx : BacklightContext)
      → P ctx
      → P (dispatch ct io buffer ctx).1) where
  handle_frame-keeps :
      (io : Io) (verbose : Bool) (buffer : Bytes) (ctx : BacklightContext)
      → P ctx
      → P (handle_frame io verbose buffer ctx).1.1
  unfolding handle_frame
  handle_frame-keeps io verbose buffer ctx p =
      elim (Option-cases (command_type (frame_type buffer))) [
        | inl e ↦ rw (e, handle_frame) p
        | inr (ct, e) ↦ rw (e, handle_frame) (keeps ct io buffer ctx p)
      ]

  settle-keeps :
      (entries : List Frame.Entry) (call : Call) (d : Daemon)
      → P call.1
      → P (settle entries call d).context
  settle-keeps entries (returned, ctx) d p = p
  settle-keeps entries (thrown e, ctx) d p = p
  settle-keeps entries (undefined, ctx) d p = p

  receive-keeps :
      (io : Io) (n : ℕ) (buffer : Bytes) (d : Daemon)
      → P d.context
      → P (receive io n buffer d).context
  unfolding receive
  receive-keeps io n buffer d p =
      let frame = handle_frame io d.verbose buffer d.context in
      ground
        (arith, settle-keeps frame.0 frame.1 d (handle_frame-keeps io d.verbose buffer d.context p))

  step-keeps : (d : Daemon) (e : Event) → P d.context → P (step d e).context
  unfolding step
  step-keeps d receive_error p = p
  step-keeps d (datagram io sent) p =
      ground (arith, receive-keeps io (bytes_received sent) (received sent) d p)
  step-keeps d (signalled true) p = p
  step-keeps d (signalled false) p = p

  pub run-keeps : (d : Daemon) (events : List Event) → P d.context → P (run d events).context
  unfolding run
  run-keeps d [] p = p
  run-keeps d (e ∷ events) p = ground (arith, run-keeps (step d e) events (step-keeps d e p))

dispatch-Inv :
    (ct : CommandType) (io : Io) (buffer : Bytes) (ctx : BacklightContext)
    → Inv ctx
    → Inv (dispatch ct io buffer ctx).1
unfolding dispatch Backlight.set_state Backlight.set_powersave
dispatch-Inv Frame.set_state io buffer ctx v = ground (arith, set-Inv io (frame_value buffer) ctx v)
dispatch-Inv Frame.modify_state io buffer ctx v =
    ground (arith, modify_state-Inv io (to_int (frame_value buffer)) ctx v)
dispatch-Inv Frame.save_state io buffer ctx v = ground (arith, save_state-Inv io ctx v)
dispatch-Inv Frame.restore_state io buffer ctx v = ground (arith, restore_state-Inv io ctx v)
dispatch-Inv Frame.set_powersave io buffer ctx v =
    ground (arith, set-Inv io ctx.powersave_value ctx v)

abbrev IsStuck : BacklightContext → BacklightContext → Type 0
IsStuck first ctx =
    (ctx.node_good ≡ false)
    × (ctx.current_brightness ≡ first.current_brightness)
    × (ctx.node ≡ first.node)

set-IsStuck :
    (first : BacklightContext) (io : Io) (value : ℕ) (ctx : BacklightContext)
    → IsStuck first ctx
    → IsStuck first (set io value ctx).1
unfolding set
set-IsStuck first io value ctx v = ground arith

dispatch-IsStuck :
    (first : BacklightContext) (ct : CommandType) (io : Io) (buffer : Bytes)
    (ctx : BacklightContext)
    → IsStuck first ctx
    → IsStuck first (dispatch ct io buffer ctx).1
unfolding dispatch Backlight.set_state Backlight.set_powersave Backlight.modify_state
    Backlight.save_state Backlight.restore_state
dispatch-IsStuck first Frame.set_state io buffer ctx v = ground arith
dispatch-IsStuck first _ io buffer ctx v = ground arith

abbrev IsSmall : BacklightContext → Type 0
IsSmall ctx = ctx.max_brightness < 2 ^ 32

dispatch-IsSmall :
    (ct : CommandType) (io : Io) (buffer : Bytes) (ctx : BacklightContext)
    → IsSmall ctx
    → IsSmall (dispatch ct io buffer ctx).1
unfolding dispatch Backlight.set_state Backlight.set_powersave Backlight.modify_state
    Backlight.save_state Backlight.restore_state
dispatch-IsSmall Frame.set_state io buffer ctx v = ground arith
dispatch-IsSmall _ io buffer ctx v = ground arith

-- From a well-formed state, whatever datagrams arrive, and whatever the kernel answers to their
-- handling, the state stays well-formed: the brightness stays within the maximum, and the node shows it as long as its stream is good.
pub run-Inv : (d : Daemon) (events : List Event) → Inv d.context → Inv (run d events).context
run-Inv d events v = run-keeps Inv dispatch-Inv d events v

-- Once a flush has failed, nothing clears the stream of the node: whatever is sent to the daemon
-- from then on, the brightness and the node stay as they are.
pub run_stream_failure :
    (d : Daemon) (events : List Event)
    → d.context.node_good ≡ false
    → let ctx = (run d events).context in
      (ctx.node_good ≡ false)
      × (ctx.current_brightness ≡ d.context.current_brightness)
      × (ctx.node ≡ d.context.node)
run_stream_failure d events bad =
    run-keeps (IsStuck d.context) (dispatch-IsStuck d.context) d events (bad, refl, refl)

-- The maximum is set once, at the start.
run-IsSmall :
    (d : Daemon) (events : List Event) → IsSmall d.context → IsSmall (run d events).context
run-IsSmall d events v = run-keeps IsSmall dispatch-IsSmall d events v

restore_state-IsSmall :
    (io : Io) (ctx : BacklightContext) → IsSmall ctx → IsSmall (restore_state io ctx).1
unfolding restore_state
restore_state-IsSmall io ctx v = ground arith

save_state_current :
    (io : Io) (ctx : BacklightContext)
    → (save_state io ctx).1.current_brightness ≡ ctx.current_brightness
unfolding save_state
save_state_current io ctx = ground arith

abbrev pub IsSaved : Call → Type 0
IsSaved (_, last) = Holds last.storage last.current_brightness × (last.current_brightness < 2 ^ 32)

save_state-IsSaved :
    (io : Io) (ctx : BacklightContext)
    → Inv ctx
    → IsSmall ctx
    → (save_state io ctx).0 ≡ returned
    → IsSaved (save_state io ctx)
save_state-IsSaved io ctx v small e =
    rw (save_state_current io ctx) (save_state-Holds io ctx v e, omega (arith, v.in_range))

stop-IsSaved :
    (io : Io) (lost : Bool) (ctx : BacklightContext)
    → Inv ctx
    → IsSmall ctx
    → let end : Call = if lost then (undefined, ctx) else save_state io ctx in
      end.0 ≡ returned → IsSaved end
stop-IsSaved io true ctx v small e = cc
stop-IsSaved io false ctx v small e = save_state-IsSaved io ctx v small e

after_restore-IsSaved :
    (io : Io) (events : List Event) (call : Call)
    → Inv call.1
    → IsSmall call.1
    → (after_restore io events call).0 ≡ returned
    → IsSaved (after_restore io events call)
after_restore-IsSaved io events (returned, ctx) v small e =
    let d = run (started false ctx) events in
    stop-IsSaved io d.lost d.context (run-Inv (started false ctx) events v)
      (run-IsSmall (started false ctx) events small) e
after_restore-IsSaved io events (thrown _, ctx) v small e = cc
after_restore-IsSaved io events (undefined, ctx) v small e = cc

-- A daemon that stops in order leaves its brightness in the storage file.
pub daemon_main-IsSaved :
    (at_start at_end : Io) (events : List Event) (ctx last : BacklightContext)
    → Inv ctx
    → ctx.max_brightness < 2 ^ 32
    → daemon_main at_start events at_end ctx ≡ (returned, last)
    → IsSaved (returned, last)
unfolding daemon_main
daemon_main-IsSaved at_start at_end events ctx last v small e = subst IsSaved e (
    after_restore-IsSaved at_end events (restore_state at_start ctx)
      (restore_state-Inv at_start ctx v) (restore_state-IsSmall at_start ctx small)
      (ap (λ c. c.0) e))
