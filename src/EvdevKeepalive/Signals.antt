-- ===== src/EvdevKeepalive/Signals.antt =====
-- When src/evdev_keepalive.c ends.
use tjtools.Common.{
  ℕ, zero, suc, ◌≤◌, ◌≡◌, refl, ap, ◌∙◌, Bool, true, List, [], ◌∷◌, ◌++◌, Option, none, some, Bytes,
  codes, length, replicate, take_all, All, arith,
}
use tjtools.Common.Int.{pos}
use tjtools.EvdevKeepalive.{
  device_path, Event, sigint, sigterm, advance, beginning, opened, handled, suspended, woken,
  Process, running, exited, step, run,
}

abbrev pub IsSignal : Event → Type 0
IsSignal sigint = Unit
IsSignal sigterm = Unit
IsSignal advance = ⊥

module _ (opens : Bytes → Bool) (args : List Bytes) where
  run-append :
      (p : Process) (front back : List Event)
      → run opens args p (front ++ back) ≡ run opens args (run opens args p front) back
  unfolding run
  run-append p [] back = refl
  run-append p (e ∷ front) back = run-append (step opens args p e) front back

  -- Signals before sigsuspend change nothing once there are handlers for them.
  run_handled :
      (signals : List Event) (held : Option Bytes)
      → All IsSignal signals
      → run opens args (running handled held) signals ≡ running handled held
  unfolding run step
  run_handled [] held h = refl
  run_handled (sigint ∷ signals) held h = run_handled signals held h.1
  run_handled (sigterm ∷ signals) held h = run_handled signals held h.1
  run_handled (advance ∷ signals) held h = absurd h.0

  run_suspended :
      (n : ℕ) (held : Option Bytes)
      → run opens args (running suspended held) (replicate n advance) ≡ running suspended held
  unfolding run step
  run_suspended zero held = refl
  run_suspended (suc n) held = run_suspended n held

  run_woken :
      (signals : List Event) (held : Option Bytes)
      → All IsSignal signals
      → run opens args (running woken held) signals ≡ running woken held
  unfolding run step
  run_woken [] held h = refl
  run_woken (sigint ∷ signals) held h = run_woken signals held h.1
  run_woken (sigterm ∷ signals) held h = run_woken signals held h.1
  run_woken (advance ∷ signals) held h = absurd h.0

-- From the start to the last call before sigsuspend; then signals; then calls, of which the first is
-- sigsuspend.
abbrev pub early : List Event → ℕ → List Event
early signals n = replicate 3 advance ++ (signals ++ replicate (suc n) advance)

opening :
    (opens : Bytes → Bool) (name : Bytes) (more : List Bytes)
    → opens (device_path name) ≡ true
    → step opens (name ∷ more) (running beginning none) advance
      ≡ running opened (some (device_path name))
unfolding step
opening opens name more o = rw o

early_suspended :
    (opens : Bytes → Bool) (name : Bytes) (more : List Bytes) (signals : List Event) (n : ℕ)
    → opens (device_path name) ≡ true
    → All IsSignal signals
    → run opens (name ∷ more) (running beginning none) (early signals n)
      ≡ running suspended (some (device_path name))
unfolding run step
early_suspended opens name more signals n o h =
    let held = some (device_path name) in
    ap
      (λ p.
        run opens (name ∷ more) p (replicate 2 advance ++ (signals ++ replicate (suc n) advance)))
      (opening opens name more o)
    ∙ run-append opens (name ∷ more) (running handled held) signals (replicate (suc n) advance)
    ∙ ap (λ p. run opens (name ∷ more) p (replicate (suc n) advance))
        (run_handled opens (name ∷ more) signals held h)
    ∙ run_suspended opens (name ∷ more) n held

ended :
    (opens : Bytes → Bool) (args : List Bytes) (s : Event) (late : List Event) (held : Option Bytes)
    → IsSignal s
    → All IsSignal late
    → run opens args (running suspended held) (s ∷ (late ++ advance ∷ [])) ≡ exited (pos 0)
unfolding run step
ended opens args sigint late held is l =
    run-append opens args (running woken held) late (advance ∷ [])
    ∙ ap (λ p. run opens args p (advance ∷ [])) (run_woken opens args late held l)
ended opens args sigterm late held is l =
    run-append opens args (running woken held) late (advance ∷ [])
    ∙ ap (λ p. run opens args p (advance ∷ [])) (run_woken opens args late held l)
ended opens args advance late held is l = absurd is

-- For a name of at most 20 bytes whose device opens: signals that arrive when the handlers are installed
-- but sigsuspend has not been called do not end the program, which waits on with the device open; the
-- first signal behind that call does, and the program returns 0 with its next call.
pub run_signals :
    (opens : Bytes → Bool) (name : Bytes) (more : List Bytes) (signals late : List Event) (n : ℕ)
    (s : Event)
    → length name ≤ 20
    → opens (codes "/dev/input/" ++ name) ≡ true
    → All IsSignal signals
    → All IsSignal late
    → IsSignal s
    → (run opens (name ∷ more) (running beginning none) (early signals n)
        ≡ running suspended (some (codes "/dev/input/" ++ name)))
      × (run opens
            (name ∷ more)
            (running beginning none)
            (early signals n ++ s ∷ (late ++ advance ∷ []))
          ≡ exited (pos 0))
run_signals opens name more signals late n s small o h l is =
    let path : device_path name ≡ codes "/dev/input/" ++ name =
      take_all 31 (codes "/dev/input/" ++ name) (omega (arith, small)) in
    let waits =
      early_suspended opens name more signals n (ap opens path ∙ o) h
      ∙ ap (λ t. running suspended (some t)) path in
    (
      waits,
      run-append opens (name ∷ more) (running beginning none) (early signals n)
            (s ∷ (late ++ advance ∷ []))
          ∙ ap (λ p. run opens (name ∷ more) p (s ∷ (late ++ advance ∷ []))) waits
          ∙ ended opens (name ∷ more) s late _ is l,
    )
