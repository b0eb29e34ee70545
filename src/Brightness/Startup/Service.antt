-- ===== src/Brightness/Startup/Service.antt =====
-- The user and the socket of the daemon after its start.
use tjtools.Common.{
  if◌then◌else◌, Option, ℕ, ◌≡◌, ◌≢◌, refl, sym, ap, ◌∙◌, arith, true, false, [], ◌∷◌, none, some,
  Bytes, codes, subst,
}
use tjtools.Common.Result.{Result, ok, err, bind_ok, from_ok, guard, or_throw, ◌>>=◌}
use tjtools.Common.Json.{Field, value, missing, mistyped, at, at_or, ConfigFile}
use tjtools.Brightness.Privileges.{
  Passwd, Accounts, Answers, Process, PrivilegeError, get_uid_gid, drop_root_privileges,
}
use tjtools.Brightness.Privileges.Laws.{
  IsGroup, by_name, IsFound, user_process, drop_root_privileges-user_process,
}
use tjtools.Brightness.Startup.{
  RawConfig, Config, Machine, SocketAnswers, SocketFile, Serving, read_config, init_backlight,
  init_socket, start, is_empty, dropped, StartError, bad_json, no_config, config_denied,
  parse_identifier,
}

-- What is not in the file is empty.
pub data Gives : Field Bytes → Bytes → Type 0 where
  given : (text : Bytes) → Gives (value text) text
  left_out : Gives missing []

module _ (db : Accounts) where
  -- The socket of a configured user belongs to the ids that get_uid_gid finds.
  init_socket-owner :
      (cfg : Config) (s : SocketAnswers) (p : Process) (socket : SocketFile)
      → is_empty cfg.user ≡ false
      → init_socket db cfg s p ≡ ok socket
      → (get_uid_gid db (some cfg.user) (some cfg.group) ≡ ok socket.owner)
        × (socket.restricted ≡ true)
  unfolding init_socket
  init_socket-owner cfg s p socket named e = ground arith

  dropped_ok :
      (r : Result PrivilegeError (Unit {0}) × Process) (q : Process)
      → dropped db r ≡ ok q
      → (r.0 ≡ ok tt) × (r.1 ≡ q)
  dropped_ok (ok u, p) q e = ground arith
  dropped_ok (err x, p) q e = ground arith

  -- The steps of a start that succeeds.
  pub start_ok :
      (file : ConfigFile RawConfig) (m : Machine) (s : SocketAnswers) (a : Answers) (p : Process)
      (d : Serving)
      → start db file m s a p ≡ ok d
      → (cfg : Config) × (read_config file ≡ ok cfg)
        × (init_backlight cfg m ≡ ok d.context)
        × (init_socket db cfg s p ≡ ok d.socket)
        × (dropped db (drop_root_privileges db a (some cfg.user) (some cfg.group) p) ≡ ok d.process)
  unfolding start
  start_ok file m s a p d e =
      let (cfg, read, e1) = bind_ok (read_config file) _ d e in
      let (context, init, e2) = bind_ok (init_backlight cfg m) _ d e1 in
      let (socket, made, e3) = bind_ok (init_socket db cfg s p) _ d e2 in
      let (process, left, e4) =
        bind_ok (dropped db (drop_root_privileges db a (some cfg.user) (some cfg.group) p)) _ d
          e3 in
      let same = ap (from_ok d) e4 in
      (
        cfg,
        read,
        init ∙ ap (λ x. ok x.context) same,
        made ∙ ap (λ x. ok x.socket) same,
        left ∙ ap (λ x. ok x.process) same,
      )

  at_or-Gives :
      (e : StartError) (field : Field Bytes) (text : Bytes)
      → at_or e [] field ≡ ok text
      → Gives field text
  at_or-Gives e missing text f = subst (Gives missing) (ap (from_ok []) f) left_out
  at_or-Gives e mistyped text f = absurd (ground arith)
  at_or-Gives e (value t) text f = subst (Gives (value t)) (ap (from_ok []) f) (given t)

  or_throw-some :
      (o : Option RawConfig) (raw : RawConfig) → or_throw o bad_json ≡ ok raw → o ≡ some raw
  or_throw-some none raw e = absurd (ground arith)
  or_throw-some (some other) raw e = ap (λ r. some (from_ok raw r)) e

  -- What a chain of calls gives follows from what it gives behind its first call.
  then_ok :
      {A B Q : Type 0} (r : Result StartError A) (f : A → Result StartError B) (b : B)
      → ((a : A) → r ≡ ok a → f a ≡ ok b → Q)
      → (r >>= f) ≡ ok b
      → Q
  then_ok (ok a) f b k e = k a refl e
  then_ok (err x) f b k e = absurd (ground arith)

  -- The fields that read_config reads after the user and the group do not change these.
  rest_of :
      (raw : RawConfig) (user group : Bytes) (cfg : Config)
      → (do
        json ← at bad_json raw.raw_identifier
        identifier ← parse_identifier json
        state_path ← at bad_json raw.raw_state_path
        socket_path ← at bad_json raw.raw_socket_path
        powersave_value ← at bad_json raw.raw_powersave_value
        ok (record {
          user = user;
          group = group;
          identifier = identifier;
          state_path = state_path;
          socket_path = socket_path;
          powersave_value = powersave_value;
        }))
        ≡ ok cfg
      → (user ≡ cfg.user) × (group ≡ cfg.group)
  rest_of raw user group cfg e =
      then_ok (at bad_json raw.raw_identifier) _ cfg
        (λ json _. then_ok (parse_identifier json) _ cfg (λ _ _.
          then_ok (at bad_json raw.raw_state_path) _ cfg (λ _ _.
            then_ok (at bad_json raw.raw_socket_path) _ cfg (λ _ _.
              then_ok (at bad_json raw.raw_powersave_value) _ cfg (λ _ _ same.
                let fields = ap (from_ok cfg) same in
                (ap (λ c. c.user) fields, ap (λ c. c.group) fields))))))
        e

  -- The user and the group of a configuration are those of its file.
  read_config-Gives :
      (file : ConfigFile RawConfig) (cfg : Config)
      → read_config file ≡ ok cfg
      → (raw : RawConfig) × (file.content ≡ some raw)
        × Gives raw.raw_user cfg.user
        × Gives raw.raw_group cfg.group
  unfolding read_config
  read_config-Gives file cfg e =
      then_ok (guard file.is_regular_file no_config) _ cfg
        (λ _ _. then_ok (guard file.good config_denied) _ cfg (λ _ _.
          then_ok (or_throw file.content bad_json) _ cfg (λ raw content.
            then_ok (at_or bad_json [] raw.raw_user) _ cfg (λ user u.
              then_ok (at_or bad_json [] raw.raw_group) _ cfg (λ group g e5.
                let (same_user, same_group) = rest_of raw user group cfg e5 in
                (
                  raw,
                  or_throw-some file.content raw content,
                  at_or-Gives bad_json raw.raw_user cfg.user (u ∙ ap ok same_user),
                  at_or-Gives bad_json raw.raw_group cfg.group (g ∙ ap ok same_group),
                ))))))
        e

  -- The socket of a configured user belongs to the user and the group of the database.
  found_owner :
      (cfg : Config) (uid gid : ℕ) (pwd : Passwd)
      → db.getpwnam cfg.user ≡ some pwd
      → pwd.pw_uid ≡ uid
      → db.getgrnam cfg.group ≡ some gid
      → get_uid_gid db (some cfg.user) (some cfg.group) ≡ ok (uid, gid)
  unfolding get_uid_gid
  found_owner cfg uid gid pwd account same group = rw (group, account) (ap (λ k. ok (k, gid)) same)

  configured :
      (field : Field Bytes) (user : Bytes)
      → Gives field user
      → (db.getpwnam [] ≡ none)
      → (pwd : Passwd) → db.getpwnam user ≡ some pwd
      → (field ≡ value user) × (is_empty user ≡ false)
  configured _ _ (given []) nobody pwd e = absurd (ground arith)
  configured _ _ (given (c ∷ text)) nobody pwd e = (refl, refl)
  configured _ _ left_out nobody pwd e = absurd (ground arith)

  abbrev from_some : Bytes → Option Bytes → Bytes
  from_some other none = other
  from_some other (some text) = text

  group_name :
      {pwd : Passwd} {name : Bytes} {gid : ℕ}
      → IsGroup db pwd (some name) gid
      → db.getgrnam name ≡ some gid
  group_name (by_name e) = e

  serves :
      (file : ConfigFile RawConfig) (raw : RawConfig) (cfg : Config) (s : SocketAnswers)
      (a : Answers) (p : Process) (d : Serving) (user : Bytes) (uid gid : ℕ)
      → db.getpwnam [] ≡ none
      → file.content ≡ some raw
      → Gives raw.raw_user cfg.user
      → Gives raw.raw_group cfg.group
      → IsFound db (some cfg.user) (some cfg.group) user uid gid
      → d.process ≡ user_process db a user uid gid
      → init_socket db cfg s p ≡ ok d.socket
      → (raw : RawConfig) × (user : Bytes) × (group : Bytes) × (pwd : Passwd) × (gid : ℕ)
        × (file.content ≡ some raw)
        × (raw.raw_user ≡ value user)
        × Gives raw.raw_group group
        × (db.getpwnam user ≡ some pwd)
        × (db.getgrnam group ≡ some gid)
        × (pwd.pw_uid ≢ 0)
        × (gid ≢ 0)
        × (d.process ≡ record {
          uid = pwd.pw_uid;
          gid = gid;
          groups = if a.initgroups then db.member_groups user gid else [];
          cwd = codes "/";
        })
        × (d.socket.owner ≡ (pwd.pw_uid, gid))
        × (d.socket.restricted ≡ true)
  serves file raw cfg s a p d user uid gid nobody content u g found process made =
      let same_user : cfg.user ≡ user = ap (λ o. from_some [] o) found.named in
      let account = ap db.getpwnam same_user ∙ found.account in
      let group = group_name found.group in
      let (in_file, named) = configured raw.raw_user cfg.user u nobody found.pwd account in
      let (owner, closed) = init_socket-owner cfg s p d.socket named made in
      let ids = found_owner cfg uid gid found.pwd account found.same_uid group in
      (
        raw,
        cfg.user,
        cfg.group,
        found.pwd,
        gid,
        content,
        in_file,
        g,
        account,
        group,
        rw found.same_uid found.no_root_user,
        found.no_root_group,
        rw (found.same_uid, same_user) process,
        ap (from_ok d.socket.owner) (sym owner ∙ ids) ∙ ap (λ k. (k, gid)) (sym found.same_uid),
        closed,
      )

  -- A daemon of root whose start succeeds has a configured user, if no account has an empty name. That
  -- user is in the database, and so is the configured group, if an omitted one is taken as the empty
  -- name; neither is root's. The daemon serves as this user and group in the root directory, with the
  -- groups that initgroups sets, or none if it fails. Its socket belongs to this user and group and is
  -- closed to all others.
  pub start-owner :
      (file : ConfigFile RawConfig) (m : Machine) (s : SocketAnswers) (a : Answers) (p : Process)
      (d : Serving)
      → db.getpwnam [] ≡ none
      → p.uid ≡ 0
      → start db file m s a p ≡ ok d
      → (raw : RawConfig) × (user : Bytes) × (group : Bytes) × (pwd : Passwd) × (gid : ℕ)
        × (file.content ≡ some raw)
        × (raw.raw_user ≡ value user)
        × Gives raw.raw_group group
        × (db.getpwnam user ≡ some pwd)
        × (db.getgrnam group ≡ some gid)
        × (pwd.pw_uid ≢ 0)
        × (gid ≢ 0)
        × (d.process ≡ record {
          uid = pwd.pw_uid;
          gid = gid;
          groups = if a.initgroups then db.member_groups user gid else [];
          cwd = codes "/";
        })
        × (d.socket.owner ≡ (pwd.pw_uid, gid))
        × (d.socket.restricted ≡ true)
  start-owner file m s a p d nobody root e =
      let (cfg, read, init, made, left) = start_ok file m s a p d e in
      let (raw, content, u, g) = read_config-Gives file cfg read in
      let (fine, same) = dropped_ok _ d.process left in
      let (user, uid, gid, found, process) =
        drop_root_privileges-user_process db a (some cfg.user) (some cfg.group) p root fine in
      serves file raw cfg s a p d user uid gid nobody content u g found (sym same ∙ process) made
