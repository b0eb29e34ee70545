-- ===== src/EvdevKeepalive.antt =====
-- src/evdev_keepalive.c: keeps a device open until a signal arrives. The program runs by its calls, and a
-- signal can arrive before each of them. Which files open is a parameter.
pub mod Signals
use tjtools.Common.{
  Bool, true, false, List, [], ◌∷◌, ◌++◌, Option, none, some, Bytes, codes, take, if◌then◌else◌,
}
use tjtools.Common.Int.{ℤ, pos, negsuc}

-- snprintf into 32 bytes, the last of which is the end of the text.
abbrev pub device_path : Bytes → Bytes
device_path name = take 31 (codes "/dev/input/" ++ name)

-- The two signals, and the next call of the program.
pub data Event : Type 0 where
  sigint sigterm advance : Event

-- The place in main: before open, before each sigaction, before sigsuspend, inside it, and behind it.
pub data Pc : Type 0 where
  beginning opened int_handled handled suspended woken : Pc

-- `held` is the open file. A signal without a handler ends the process.
pub data Process : Type 0 where
  running : Pc → Option Bytes → Process
  exited : ℤ → Process
  killed : Process

abbrev open_device : (Bytes → Bool) → List Bytes → Process
open_device opens [] = exited (negsuc 0)
open_device opens (name ∷ more) =
    if opens (device_path name) then running opened (some (device_path name)) else exited (pos 0)

-- The next call; sigsuspend does not return by itself.
abbrev pub next_call : (Bytes → Bool) → List Bytes → Pc → Option Bytes → Process
next_call opens args beginning held = open_device opens args
next_call opens args opened held = running int_handled held
next_call opens args int_handled held = running handled held
next_call opens args handled held = running suspended held
next_call opens args suspended held = running suspended held
next_call opens args woken held = exited (pos 0)

-- The handler of both signals does nothing, but sigsuspend returns after it.
abbrev pub handle : Pc → Option Bytes → Process
handle suspended held = running woken held
handle pc held = running pc held

abbrev pub on_sigint : Pc → Option Bytes → Process
on_sigint beginning held = killed
on_sigint opened held = killed
on_sigint pc held = handle pc held

abbrev pub on_sigterm : Pc → Option Bytes → Process
on_sigterm beginning held = killed
on_sigterm opened held = killed
on_sigterm int_handled held = killed
on_sigterm pc held = handle pc held

unfoldable pub step : (Bytes → Bool) → List Bytes → Process → Event → Process
step opens args (running pc held) advance = next_call opens args pc held
step opens args (running pc held) sigint = on_sigint pc held
step opens args (running pc held) sigterm = on_sigterm pc held
step opens args p e = p

unfoldable pub run : (Bytes → Bool) → List Bytes → Process → List Event → Process
run opens args p [] = p
run opens args p (e ∷ events) = run opens args (step opens args p e) events
