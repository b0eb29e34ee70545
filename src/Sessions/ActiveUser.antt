-- ===== src/Sessions/ActiveUser.antt =====
-- src/active_user.c: which user is found, and what is returned.
use tjtools.Common.{
  ℕ, ◌≡◌, refl, Bool, not, ◌&&◌, List, [], ◌∷◌, Option, none, some, Bytes, if◌then◌else◌, inl, inr,
  Bool-cases, length,
}
use tjtools.Common.Int.{ℤ, pos, negsuc}
use tjtools.Sessions.{
  Session, listed, is_zero, is_wayland, Search, query, find_active, get_active_user,
}

-- A wayland session, by the two answers about it.
abbrev wayland_user : ℤ × ℕ → ℤ × Bytes → Option ℕ
wayland_user (negsuc n, session_uid) kind = none
wayland_user (pos n, session_uid) (negsuc m, session_type) = none
wayland_user (pos n, session_uid) (pos m, session_type) =
    if is_wayland session_type then some session_uid else none

abbrev is_considered : Session → Bool
is_considered s = is_zero s.remote && not (is_zero s.active)

-- The user of the first local wayland session that is not inactive.
abbrev pub first_user : List Session → Option ℕ
first_user [] = none
first_user (s ∷ sessions) =
    if is_considered s
    then elim (wayland_user s.uid s.kind) [ none ↦ first_user sessions | some u ↦ some u ]
    else first_user sessions

-- What the last of the queries of a session returned.
abbrev last_query : ℤ × ℕ → ℤ × Bytes → ℤ
last_query (negsuc n, session_uid) kind = negsuc n
last_query (pos n, session_uid) (ret, session_type) = ret

-- What the last of all queries returned; without a query, the value before them.
abbrev pub last_answer : ℤ → List Session → ℤ
last_answer ret [] = ret
last_answer ret (s ∷ sessions) =
    last_answer (if is_considered s then last_query s.uid s.kind else ret) sessions

abbrev result_of : ℤ → Option ℕ → Search
result_of ret none = (ret, none)
result_of ret (some user) = (pos 1, some user)

-- What the loop is to give.
abbrev pub expected : ℤ → List Session → Search
expected ret sessions = result_of (last_answer ret sessions) (first_user sessions)

query_lem :
    (uid : ℤ × ℕ) (kind : ℤ × Bytes) (sessions : List Session)
    → ((r : ℤ) → find_active r sessions ≡ expected r sessions)
    → query uid kind (λ r. find_active r sessions)
      ≡ result_of
          (last_answer (last_query uid kind) sessions)
          (elim (wayland_user uid kind) [ none ↦ first_user sessions | some u ↦ some u ])
query_lem (negsuc n, session_uid) kind sessions later = later (negsuc n)
query_lem (pos n, session_uid) (negsuc m, session_type) sessions later = later (negsuc m)
query_lem (pos n, session_uid) (pos m, session_type) sessions later =
    elim (Bool-cases (is_wayland session_type)) [ inl e ↦ rw e refl | inr e ↦ rw e (later (pos m)) ]

find_active-expected :
    (ret : ℤ) (sessions : List Session) → find_active ret sessions ≡ expected ret sessions
unfolding find_active
find_active-expected ret [] = refl
find_active-expected ret (s ∷ sessions) = elim (Bool-cases (is_zero s.remote)) [
  | inl local ↦ elim (Bool-cases (is_zero s.active)) [
    | inl inactive ↦ simp (local, inactive) (find_active-expected ret sessions)
    | inr active' ↦
        simp (local, active')
          (query_lem s.uid s.kind sessions (λ r. find_active-expected r sessions))
  ]
  | inr remote' ↦ simp remote' (find_active-expected ret sessions)
]

-- With sessions to look at, get_active_user stores the user of the first local wayland session that is
-- not inactive, and returns 1. If there is none, it stores no user and returns what the last query
-- returned, or the number of the sessions if none was queried.
pub get_active_user-expected :
    (s : Session) (sessions : List Session)
    → get_active_user (listed (s ∷ sessions))
      ≡ expected (pos (length (s ∷ sessions))) (s ∷ sessions)
unfolding get_active_user
get_active_user-expected s sessions =
    find_active-expected (pos (length (s ∷ sessions))) (s ∷ sessions)
