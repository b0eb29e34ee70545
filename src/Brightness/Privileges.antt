-- ===== src/Brightness/Privileges.antt =====
-- get_uid_gid and drop_root_privileges of src/brightness_utils/common.cpp. The user database is a
-- parameter, and so are the kernel's answers; `none` stands for a null pointer.
pub mod Laws
use tjtools.Common.{
  ℕ, Bool, true, false, not, List, [], ◌∷◌, Option, none, some, Bytes, codes, ◌==◌, if◌then◌else◌,
}
use tjtools.Common.Result.{Result, ok, err, ◌>>=◌, ◌>>◌, guard, or_throw}

pub record Passwd : Type 0 where
  pub pw_uid : ℕ
  pub pw_gid : ℕ

-- getgrnam and getgrgid give the group's id; `member_groups` is what initgroups sets.
pub record Accounts : Type 0 where
  pub getgrnam : Bytes → Option ℕ
  pub getgrgid : ℕ → Option ℕ
  pub getpwnam : Bytes → Option Passwd
  pub member_groups : Bytes → ℕ → List ℕ

-- Which of the calls succeed.
pub record Answers : Type 0 where
  pub setgid : Bool
  pub setgroups : Bool
  pub initgroups : Bool
  pub chdir : Bool
  pub setuid : Bool

pub record Process : Type 0 where
  pub uid : ℕ
  pub gid : ℕ
  pub groups : List ℕ
  pub cwd : Bytes

pub data PrivilegeError : Type 0 where
  no_group invalid_username no_user no_primary_group bogus_user bogus_group : PrivilegeError
  setgid_failed setgroups_failed chdir_failed setuid_failed : PrivilegeError

module _ (db : Accounts) where
  abbrev named_group : Option Bytes → Result PrivilegeError (Option ℕ)
  named_group none = ok none
  named_group (some name) = do gid ← or_throw (db.getgrnam name) no_group; ok (some gid)

  abbrev or_primary : Option ℕ → Passwd → Result PrivilegeError ℕ
  or_primary (some gid) pwd = ok gid
  or_primary none pwd = or_throw (db.getgrgid pwd.pw_gid) no_primary_group

  -- UGID is the pair of the user's and the group's id.
  unfoldable pub get_uid_gid : Option Bytes → Option Bytes → Result PrivilegeError (ℕ × ℕ)
  get_uid_gid username groupname = do
    grp ← named_group groupname
    user ← or_throw username invalid_username
    pwd ← or_throw (db.getpwnam user) no_user
    gid ← or_primary grp pwd
    ok (pwd.pw_uid, gid)

  -- The part of drop_root_privileges that looks the ids up.
  unfoldable pub target : Option Bytes → Option Bytes → Result PrivilegeError (Bytes × ℕ × ℕ)
  target username groupname = do
    grp ← named_group groupname
    user ← or_throw username invalid_username
    pwd ← or_throw (db.getpwnam user) no_user
    guard (not (pwd.pw_uid == 0)) bogus_user
    gid ← or_primary grp pwd
    guard (not (gid == 0)) bogus_group
    ok (user, pwd.pw_uid, gid)

  -- The part that changes the process. The result of initgroups is not looked at.
  unfoldable pub become :
      Answers → Bytes × ℕ × ℕ → Process → Result PrivilegeError (Unit {0}) × Process
  become a (user, uid, gid) p =
      let p1 = record p { gid = gid } in
      let p2 = record p1 { groups = [] } in
      let p3 = if a.initgroups then record p2 { groups = db.member_groups user gid } else p2 in
      let p4 = record p3 { cwd = codes "/" } in
      if not a.setgid
      then (err setgid_failed, p)
      else if not a.setgroups
      then (err setgroups_failed, p1)
      else if not a.chdir
      then (err chdir_failed, p3)
      else if not a.setuid
      then (err setuid_failed, p4)
      else (ok tt, record p4 { uid = uid })

  unfoldable pub drop_root_privileges :
      Answers → Option Bytes → Option Bytes → Process → Result PrivilegeError (Unit {0}) × Process
  unfolding target become
  drop_root_privileges a username groupname p =
      if not (p.uid == 0)
      then (ok tt, p)
      else elim (target username groupname) [ ok ids ↦ become a ids p | err e ↦ (err e, p) ]
