-- ===== src/Brightness/Privileges/Laws.antt =====
-- What a process is after it has dropped its privileges, and after it has failed to.
use tjtools.Common.{
  ℕ, ◌≡◌, ◌≢◌, refl, ap, ◌∙◌, Option-cases, [], Option, some, none, Bytes, codes, arith, ◌⊎◌, inl,
  inr, if◌then◌else◌,
}
use tjtools.Common.Result.{Result, ok, err}
use tjtools.Brightness.Privileges.{
  Passwd, Accounts, Answers, Process, PrivilegeError, target, become, drop_root_privileges,
}

-- The group that a name stands for; without a name, the primary group of the user.
pub data IsGroup (db : Accounts) (pwd : Passwd) : Option Bytes → ℕ → Type 0 where
  by_name : {name : Bytes} {gid : ℕ} → db.getgrnam name ≡ some gid → IsGroup db pwd (some name) gid
  primary : {gid : ℕ} → db.getgrgid pwd.pw_gid ≡ some gid → IsGroup db pwd none gid

-- The database has this user and this group, and neither of them is root's.
pub record IsFound (db : Accounts) (username groupname : Option Bytes) (user : Bytes) (uid gid : ℕ)
    : Type 0 where
  pub pwd : Passwd
  pub named : username ≡ some user
  pub account : db.getpwnam user ≡ some pwd
  pub same_uid : pwd.pw_uid ≡ uid
  pub group : IsGroup db pwd groupname gid
  pub no_root_user : uid ≢ 0
  pub no_root_group : gid ≢ 0

target_named :
    (db : Accounts) (name group user : Bytes) (uid gid : ℕ)
    → target db (some name) (some group) ≡ ok (user, uid, gid)
    → IsFound db (some name) (some group) user uid gid
unfolding target
target_named db name group user uid gid e = elim (Option-cases (db.getgrnam group)) [
  | inl f ↦ absurd (ground (arith, f))
  | inr (g, f) ↦ elim (Option-cases (db.getpwnam name)) [
    | inl h ↦ absurd (ground (arith, f, h))
    | inr (pwd, h) ↦ record {
      pwd = pwd;
      named = ap some (ground (arith, f, h));
      account = ap db.getpwnam (ground (arith, f, h)) ∙ h;
      same_uid = ground (arith, f, h);
      group = by_name (f ∙ ap some (ground (arith, f, h)));
      no_root_user = ground (arith, f, h);
      no_root_group = ground (arith, f, h);
    }
  ]
]

target_primary :
    (db : Accounts) (name user : Bytes) (uid gid : ℕ)
    → target db (some name) none ≡ ok (user, uid, gid)
    → IsFound db (some name) none user uid gid
unfolding target
target_primary db name user uid gid e = elim (Option-cases (db.getpwnam name)) [
  | inl h ↦ absurd (ground (arith, h))
  | inr (pwd, h) ↦ elim (Option-cases (db.getgrgid pwd.pw_gid)) [
    | inl f ↦ absurd (ground (arith, f, h))
    | inr (g, f) ↦ record {
      pwd = pwd;
      named = ap some (ground (arith, f, h));
      account = ap db.getpwnam (ground (arith, f, h)) ∙ h;
      same_uid = ground (arith, f, h);
      group = primary (f ∙ ap some (ground (arith, f, h)));
      no_root_user = ground (arith, f, h);
      no_root_group = ground (arith, f, h);
    }
  ]
]

-- The ids that are looked up are those of the database.
target-IsFound :
    (db : Accounts) (username groupname : Option Bytes) (ids : Bytes × ℕ × ℕ)
    → target db username groupname ≡ ok ids
    → IsFound db username groupname ids.0 ids.1 ids.2
unfolding target
target-IsFound db none none ids e = ground arith
target-IsFound db none (some group) ids e = elim (Option-cases (db.getgrnam group)) [
  | inl f ↦ absurd (ground (arith, f))
  | inr (g, f) ↦ absurd (ground (arith, f))
]
target-IsFound db (some name) none (user, uid, gid) e = target_primary db name user uid gid e
target-IsFound db (some name) (some group) (user, uid, gid) e =
    target_named db name group user uid gid e

-- What a process of root becomes.
abbrev pub user_process : Accounts → Answers → Bytes → ℕ → ℕ → Process
user_process db a user uid gid = record {
  uid = uid;
  gid = gid;
  groups = if a.initgroups then db.member_groups user gid else [];
  cwd = codes "/";
}

become-user_process :
    (db : Accounts) (a : Answers) (ids : Bytes × ℕ × ℕ) (p : Process)
    → (become db a ids p).0 ≡ ok tt
    → (become db a ids p).1 ≡ user_process db a ids.0 ids.1 ids.2
unfolding become
become-user_process db a (user, uid, gid) p e = ground arith

success :
    (db : Accounts) (a : Answers) (username groupname : Option Bytes) (p : Process)
    (t : Result PrivilegeError (Bytes × ℕ × ℕ))
    → target db username groupname ≡ t
    → p.uid ≡ 0
    → (drop_root_privileges db a username groupname p).0 ≡ ok tt
    → (ids : Bytes × ℕ × ℕ) × (target db username groupname ≡ ok ids)
      × ((drop_root_privileges db a username groupname p).1 ≡ user_process db a ids.0 ids.1 ids.2)
unfolding drop_root_privileges
success db a username groupname p (err e') h root f = absurd (ground arith)
success db a username groupname p (ok ids) h root f =
    (ids, h, rw (root, h) (become-user_process db a ids p (rw (root, h) at f)))

-- If it succeeds, root becomes a user that the database has, with the groups of that user.
pub drop_root_privileges-user_process :
    (db : Accounts) (a : Answers) (username groupname : Option Bytes) (p : Process)
    → p.uid ≡ 0
    → (drop_root_privileges db a username groupname p).0 ≡ ok tt
    → (user : Bytes) × (uid : ℕ) × (gid : ℕ) × IsFound db username groupname user uid gid
      × ((drop_root_privileges db a username groupname p).1 ≡ user_process db a user uid gid)
drop_root_privileges-user_process db a username groupname p root f =
    let (ids, t, same) =
      success db a username groupname p (target db username groupname) refl root f in
    (ids.0, ids.1, ids.2, target-IsFound db username groupname ids t, same)

failed_run :
    (db : Accounts) (a : Answers) (username groupname : Option Bytes) (p : Process)
    (e : PrivilegeError) (t : Result PrivilegeError (Bytes × ℕ × ℕ))
    → target db username groupname ≡ t
    → (drop_root_privileges db a username groupname p).0 ≡ err e
    → let q = (drop_root_privileges db a username groupname p).1 in
      (p.uid ≡ 0)
      × (q.uid ≡ 0)
      × ((q ≡ p)
          ⊎ ((user : Bytes) × (uid : ℕ) × (gid : ℕ) × IsFound db username groupname user uid gid))
unfolding drop_root_privileges
failed_run db a username groupname p e (err e') h f =
    (ground arith, ground arith, inl (ground arith))
failed_run db a username groupname p e (ok ids) h f = (
  ground arith,
  ground arith,
  inr (ids.0, ids.1, ids.2, target-IsFound db username groupname ids h),
)

-- A failure never changes the user. It changes nothing of the process, unless the user and the group
-- are found in the database and neither of them is root's.
pub drop_root_privileges_failure :
    (db : Accounts) (a : Answers) (username groupname : Option Bytes) (p : Process)
    (e : PrivilegeError)
    → (drop_root_privileges db a username groupname p).0 ≡ err e
    → let q = (drop_root_privileges db a username groupname p).1 in
      (p.uid ≡ 0)
      × (q.uid ≡ 0)
      × ((q ≡ p)
          ⊎ ((user : Bytes) × (uid : ℕ) × (gid : ℕ) × IsFound db username groupname user uid gid))
drop_root_privileges_failure db a username groupname p e f =
    failed_run db a username groupname p e (target db username groupname) refl f
