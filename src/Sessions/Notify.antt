-- ===== src/Sessions/Notify.antt =====
-- src/notify_wrapper.c: when a notification is sent.
use mathlib.Core.Path.{ap₂}
use tjtools.Text.{to_string}
use tjtools.Common.{
  take, ◌++◌, ℕ, ◌≡◌, refl, sym, ap, ◌∙◌, arith, Bool, true, false, not, ◌||◌, List, [], ◌∷◌,
  Option, none, some, Bytes, if◌then◌else◌, inl, inr, Bool-cases, length, codes, ==_iff, equal_iff,
  ◌↔◌, ◌==◌, ◌⊎◌, ◌≤◌,
}
use tjtools.Common.Int.{ℤ, pos, negsuc}
use tjtools.Sessions.{
  Session, Listing, unlisted, listed, Command, executed, is_wayland, check, find_euid, notify,
  notify_main,
}

-- The session is a wayland session of the user, and both queries are answered.
pub record IsWaylandOf (euid : ℕ) (s : Session) : Type 0 where
  pub n : ℕ
  pub m : ℕ
  pub of_user : s.uid ≡ (pos n, euid)
  pub wayland : s.kind ≡ (pos m, codes "wayland")

abbrev pub HasWayland : ℕ → List Session → Type 0
HasWayland euid [] = ⊥
HasWayland euid (s ∷ sessions) = IsWaylandOf euid s ⊎ HasWayland euid sessions

check-cases :
    (euid : ℕ) (uid : ℤ × ℕ) (kind : ℤ × Bytes) (later : Bool)
    → check euid uid kind later ≡ true
    → ((n : ℕ) × (m : ℕ) × (uid ≡ (pos n, euid)) × (kind ≡ (pos m, codes "wayland")))
      ⊎ (later ≡ true)
check-cases euid (negsuc n, user) kind later h = inr h
check-cases euid (pos n, user) (negsuc m, session_type) later h = inr h
check-cases euid (pos n, user) (pos m, session_type) later h = elim (Bool-cases (user == euid)) [
  | inl same ↦ elim (Bool-cases (is_wayland session_type)) [
    | inl wayland ↦ inl (
      n,
      m,
      ap (λ u. (pos n, u)) ((==_iff user euid).0 same),
      ap (λ t. (pos m, t)) ((equal_iff session_type (codes "wayland")).0 wayland),
    )
    | inr other ↦ inr (sym (rw (same, other) refl) ∙ h)
  ]
  | inr other ↦ inr (sym (rw other refl) ∙ h)
]

check_later : (euid : ℕ) (uid : ℤ × ℕ) (kind : ℤ × Bytes) → check euid uid kind true ≡ true
check_later euid (negsuc n, user) kind = refl
check_later euid (pos n, user) (negsuc m, session_type) = refl
check_later euid (pos n, user) (pos m, session_type) = ground arith

check_wayland :
    (euid n m : ℕ) (later : Bool) → check euid (pos n, euid) (pos m, codes "wayland") later ≡ true
unfolding tjtools.Common.equal
check_wayland euid n m later = ground arith

find_euid→HasWayland :
    (euid : ℕ) (sessions : List Session) → find_euid euid sessions ≡ true → HasWayland euid sessions
unfolding find_euid
find_euid→HasWayland euid [] h = ground arith
find_euid→HasWayland euid (s ∷ sessions) h =
    elim (check-cases euid s.uid s.kind (find_euid euid sessions) h) [
      | inl (n, m, user, wayland) ↦ inl (record { n = n; m = m; of_user = user; wayland = wayland })
      | inr later ↦ inr (find_euid→HasWayland euid sessions later)
    ]

HasWayland→find_euid :
    (euid : ℕ) (sessions : List Session) → HasWayland euid sessions → find_euid euid sessions ≡ true
unfolding find_euid
HasWayland→find_euid euid [] h = absurd h
HasWayland→find_euid euid (s ∷ sessions) (inl w) =
    simp (w.of_user, w.wayland) (check_wayland euid w.n w.m (find_euid euid sessions))
HasWayland→find_euid euid (s ∷ sessions) (inr later) =
    rw (HasWayland→find_euid euid sessions later) (check_later euid s.uid s.kind)

-- The arguments ask for a notification: a summary and a body, and after them perhaps an icon. It is sent
-- by notify-send, with the icon in front of them, and to the user's session.
abbrev pub icon_argument : List Bytes → List Bytes
icon_argument [] = []
icon_argument (icon ∷ more) = take 511 (codes "--icon=/usr/share/icons/" ++ icon) ∷ []

abbrev pub Asks : ℕ → List Bytes → Command → Type 0
Asks euid args c =
    (summary : Bytes) × (body : Bytes) × (rest : List Bytes) × (args ≡ summary ∷ body ∷ rest)
    × (c.argv ≡ codes "/usr/bin/notify-send" ∷ (icon_argument rest ++ summary ∷ body ∷ []))
    × (c.envp ≡ take 63 (codes "XDG_RUNTIME_DIR=/var/run/user/" ++ to_string euid) ∷ [])

executed_same : (c d : Command) → executed c ≡ executed d → d ≡ c
executed_same c d h = cc

notify-Asks :
    (euid : ℕ) (args : List Bytes) (c : Command) → notify euid args ≡ executed c → Asks euid args c
notify-Asks euid [] c h = ground arith
notify-Asks euid (summary ∷ []) c h = ground arith
notify-Asks euid (summary ∷ body ∷ []) c h =
    let same = executed_same _ c h in
    (summary, body, [], refl, ap (λ d. d.argv) same, ap (λ d. d.envp) same)
notify-Asks euid (summary ∷ body ∷ icon ∷ more) c h =
    let same = executed_same _ c h in
    (summary, body, icon ∷ more, refl, ap (λ d. d.argv) same, ap (λ d. d.envp) same)

asked :
    (euid : ℕ) (summary body : Bytes) (rest : List Bytes)
    → notify euid (summary ∷ body ∷ rest)
      ≡ executed (record {
        argv = codes "/usr/bin/notify-send" ∷ (icon_argument rest ++ summary ∷ body ∷ []);
        envp = take 63 (codes "XDG_RUNTIME_DIR=/var/run/user/" ++ to_string euid) ∷ [];
      })
asked euid summary body [] = refl
asked euid summary body (icon ∷ more) = refl

Asks-notify :
    (euid : ℕ) (args : List Bytes) (c : Command) → Asks euid args c → notify euid args ≡ executed c
Asks-notify euid args c (summary, body, rest, e, argv, envp) =
    ap (notify euid) e
    ∙ asked euid summary body rest
    ∙ ap₂ (λ v p. executed (record { argv = v; envp = p })) (sym argv) (sym envp)

listed_iff :
    (euid : ℕ) (sessions : List Session) (args : List Bytes) (c : Command)
    → (notify_main euid (listed sessions) args ≡ executed c)
      ↔ (HasWayland euid sessions × Asks euid args c)
unfolding notify_main
listed_iff euid sessions args c = (
  (λ h. elim (Bool-cases (find_euid euid sessions)) [
    | inl found ↦ (
      find_euid→HasWayland euid sessions found,
      notify-Asks euid args c (sym (rw found refl) ∙ h),
    )
    | inr missing ↦ absurd (ground arith)
  ]),
  (λ (wayland, asks).
      rw (HasWayland→find_euid euid sessions wayland) (Asks-notify euid args c asks)),
)

-- A notification is sent exactly if the sessions are listed, one of them is a wayland session of the
-- user, and there are a summary and a body; it is sent with these in their order, behind the icon if
-- there is one, the argument for which is cut at 511 bytes.
pub notify_main_iff :
    (euid : ℕ) (l : Listing) (args : List Bytes) (c : Command)
    → (notify_main euid l args ≡ executed c) ↔ (
        (sessions : List Session) × (l ≡ listed sessions)
        × HasWayland euid sessions
        × Asks euid args c)
unfolding notify_main
notify_main_iff euid (unlisted code) args c =
    ((λ h. absurd (ground arith)), (λ (sessions, e, w, a). absurd (ground arith)))
notify_main_iff euid (listed sessions) args c =
    let iff = listed_iff euid sessions args c in
    (
      (λ h. let (w, a) = iff.0 h in (sessions, refl, w, a)),
      (λ (sessions', e, w, a).
          ap (λ l. notify_main euid l args) e ∙ (listed_iff euid sessions' args c).1 (w, a)),
    )
