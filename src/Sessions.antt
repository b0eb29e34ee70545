-- ===== src/Sessions.antt =====
-- src/active_user.c and src/notify_wrapper.c. The answers of libsystemd are parameters.
pub mod ActiveUser
pub mod Notify
use tjtools.Common.{
  ℕ, ◌+◌, Bool, true, false, List, [], ◌∷◌, ◌++◌, Option, none, some, Bytes, codes, equal, ltb,
  if◌then◌else◌, ◌==◌, length, take,
}
use tjtools.Common.Int.{ℤ, pos, negsuc}
use tjtools.Text.{to_string}

-- What the calls for one session return, and what they store if it is not negative.
pub record Session : Type 0 where
  pub remote : ℤ
  pub active : ℤ
  pub uid : ℤ × ℕ
  pub kind : ℤ × Bytes

-- sd_get_sessions: an error, or the sessions, of which it returns the number.
pub data Listing : Type 0 where
  unlisted : ℕ → Listing
  listed : List Session → Listing

abbrev pub is_zero : ℤ → Bool
is_zero (pos n) = n == 0
is_zero (negsuc n) = false

abbrev pub is_wayland : Bytes → Bool
is_wayland session_type = equal session_type (codes "wayland")

-- The variable `ret`, and the user that is stored, if the loop is left by the break.
abbrev pub Search : Type 0
Search = ℤ × Option ℕ

-- The two queries of a round, with what follows the round.
abbrev pub query : ℤ × ℕ → ℤ × Bytes → (ℤ → Search) → Search
query (negsuc n, session_uid) kind next = next (negsuc n)
query (pos n, session_uid) (negsuc m, session_type) next = next (negsuc m)
query (pos n, session_uid) (pos m, session_type) next =
    if is_wayland session_type then (pos 1, some session_uid) else next (pos m)

unfoldable pub find_active : ℤ → List Session → Search
find_active ret [] = (ret, none)
find_active ret (s ∷ sessions) =
    if is_zero s.remote
    then (if is_zero s.active
        then find_active ret sessions
        else query s.uid s.kind (λ r. find_active r sessions))
    else find_active ret sessions

-- What get_active_user returns, and what it stores in *user_id.
unfoldable pub get_active_user : Listing → Search
get_active_user (unlisted code) = (negsuc 0, none)
get_active_user (listed []) = (pos 0, none)
get_active_user (listed (s ∷ sessions)) = find_active (pos (length (s ∷ sessions))) (s ∷ sessions)

-- A program that is executed, with its environment.
pub record Command : Type 0 where
  pub argv : List Bytes
  pub envp : List Bytes

abbrev pub notify_send : Bytes
notify_send = codes "/usr/bin/notify-send"

-- The buffers have 64 and 512 bytes, the last of which is the end of the text.
abbrev pub exec_notify : ℕ → Bytes → Bytes → Option Bytes → Command
exec_notify id summary body icon =
    let env : List Bytes = take 63 (codes "XDG_RUNTIME_DIR=/var/run/user/" ++ to_string id) ∷ [] in
    elim icon [
      | none ↦ record { argv = notify_send ∷ summary ∷ body ∷ []; envp = env }
      | some icon' ↦ record {
        argv =
            notify_send
            ∷ take 511 (codes "--icon=/usr/share/icons/" ++ icon')
            ∷ summary
            ∷ body
            ∷ [];
        envp = env;
      }
    ]

-- One round: is the session a wayland session of the user?
abbrev pub check : ℕ → ℤ × ℕ → ℤ × Bytes → Bool → Bool
check euid (negsuc n, session_uid) kind later = later
check euid (pos n, session_uid) (negsuc m, session_type) later = later
check euid (pos n, session_uid) (pos m, session_type) later =
    if session_uid == euid then (if is_wayland session_type then true else later) else later

unfoldable pub find_euid : ℕ → List Session → Bool
find_euid euid [] = false
find_euid euid (s ∷ sessions) = check euid s.uid s.kind (find_euid euid sessions)

-- The value that main returns, or the call of execve, which returns only if it fails.
pub data End : Type 0 where
  returned : ℤ → End
  executed : Command → End

-- The arguments after the program's name; those after the icon are not looked at.
abbrev pub notify : ℕ → List Bytes → End
notify euid (summary ∷ body ∷ []) = executed (exec_notify euid summary body none)
notify euid (summary ∷ body ∷ icon ∷ more) = executed (exec_notify euid summary body (some icon))
notify euid _ = returned (negsuc 1)

unfoldable pub notify_main : ℕ → Listing → List Bytes → End
notify_main euid (unlisted code) args = returned (negsuc 0)
notify_main euid (listed sessions) args =
    if find_euid euid sessions then notify euid args else returned (pos 0)
