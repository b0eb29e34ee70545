-- ===== src/Brightness/Startup.antt =====
-- The start of the daemon: src/brightness_utils/config.h, BacklightIdentifier::parse of common.cpp, and
-- init and start of src/brightness_daemon.cpp. The JSON library is a parameter, and so is what the
-- kernel answers; `none` in a place of an answer is a call that fails.
pub mod Opening
pub mod Service
use tjtools.Common.{
  ℕ, ◌%◌, ◌^◌, Bool, true, false, not, ◌||◌, List, [], ◌∷◌, Option, none, some, Bytes, codes,
  if◌then◌else◌,
}
use tjtools.Common.Int.{ℤ, to_unsigned}
use tjtools.Common.Result.{Result, ok, err, ◌>>=◌, ◌>>◌, guard, or_throw}
use tjtools.Common.Json.{Field, at, at_or, ConfigFile}
use tjtools.Common.FilePath.{join}
use tjtools.Text.{extract, stoi}
use tjtools.Brightness.Backlight.{BacklightContext, Storage}
use tjtools.Brightness.Privileges.{
  Accounts, Answers, Process, PrivilegeError, get_uid_gid, drop_root_privileges,
}
use tjtools.Brightness.Sysfs.{
  BacklightIdentifier, DirEntry, Files, Outcome, defined, undefined, lookup_backlight_node,
  read_sysfs, to_u16,
}

-- `overrun` is undefined behaviour of rstrip, and `endless` a walk in sysfs that does not end.
pub data StartError : Type 0 where
  no_config config_denied bad_json bad_number no_node no_maximum stream_failure : StartError
  directory_failed socket_failed chown_failed overrun endless : StartError
  refused : PrivilegeError → StartError

pub record RawIdentifier : Type 0 where
  pub raw_prefix : Field Bytes
  pub raw_vendor_id : Field Bytes
  pub raw_device_id : Field Bytes

pub record RawConfig : Type 0 where
  pub raw_user : Field Bytes
  pub raw_group : Field Bytes
  pub raw_identifier : Field RawIdentifier
  pub raw_state_path : Field Bytes
  pub raw_socket_path : Field Bytes
  pub raw_powersave_value : Field ℕ

pub record Config : Type 0 where
  pub user : Bytes
  pub group : Bytes
  pub identifier : BacklightIdentifier
  pub state_path : Bytes
  pub socket_path : Bytes
  pub powersave_value : ℕ

unfoldable pub parse_identifier : RawIdentifier → Result StartError BacklightIdentifier
parse_identifier data' = do
  prefix ← at bad_json data'.raw_prefix
  vendor ← at bad_json data'.raw_vendor_id
  vendor_id ← or_throw (stoi 16 vendor) bad_number
  device ← at bad_json data'.raw_device_id
  device_id ← or_throw (stoi 16 device) bad_number
  ok (record { prefix = prefix; vendor_id = to_u16 vendor_id; device_id = to_u16 device_id })

-- The strings of a new object are empty.
unfoldable pub read_config : ConfigFile RawConfig → Result StartError Config
read_config file = do
  guard file.is_regular_file no_config
  guard file.good config_denied
  config_data ← or_throw file.content bad_json
  user ← at_or bad_json [] config_data.raw_user
  group ← at_or bad_json [] config_data.raw_group
  raw ← at bad_json config_data.raw_identifier
  identifier ← parse_identifier raw
  state_path ← at bad_json config_data.raw_state_path
  socket_path ← at bad_json config_data.raw_socket_path
  powersave_value ← at bad_json config_data.raw_powersave_value
  ok (record {
    user = user;
    group = group;
    identifier = identifier;
    state_path = state_path;
    socket_path = socket_path;
    powersave_value = powersave_value;
  })

-- sysfs, with the directory of the backlights and a bound on the links that are followed; can the
-- brightness node be opened for writing; the state file, if it exists; can its directory and the file be
-- created, and can it be opened?
pub record Machine : Type 0 where
  pub files : Files
  pub entries : List DirEntry
  pub links : ℕ
  pub writable : Bool
  pub state_file : Option Bytes
  pub has_directory : Bool
  pub makes_directory : Bool
  pub makes_file : Bool
  pub storage_opens : Bool

abbrev pub from_outcome : {A : Type 0} → Outcome (Option A) → StartError → Result StartError A
from_outcome undefined e = err overrun
from_outcome (defined none) e = err e
from_outcome (defined (some a)) e = ok a

abbrev pub find_node : Option (Outcome (Option Bytes)) → Result StartError Bytes
find_node none = err endless
find_node (some o) = from_outcome o no_node

-- `>>` into a string, and std::stoi; a stream without a word throws.
abbrev pub sync : Bytes → Result StartError ℤ
sync content = do
  tmp ← (elim (extract content) [ [] ↦ err stream_failure | c ∷ rest ↦ ok (c ∷ rest) ])
  or_throw (stoi 10 tmp) bad_number

abbrev pub storage_of : Option Bytes → Storage
storage_of none = record { content = []; position = 0; good = false }
storage_of (some content) = record { content = content; position = 0; good = true }

-- storage_stream_ throws nothing: if the state file cannot be created or opened, it is bad.
abbrev pub open_state : Machine → Option Bytes → Result StartError Storage
open_state m (some content) = ok (storage_of (if m.storage_opens then some content else none))
open_state m none = do
  guard (m.has_directory || m.makes_directory) directory_failed
  ok (storage_of (if m.makes_file then (if m.storage_opens then some [] else none) else none))

-- BacklightContext::init. An int that is read becomes an unsigned.
unfoldable pub init_backlight : Config → Machine → Result StartError BacklightContext
init_backlight cfg m = do
  node ← find_node (lookup_backlight_node m.files m.links cfg.identifier m.entries)
  text ← from_outcome (read_sysfs m.files (join node (codes "max_brightness"))) no_maximum
  max_brightness ← or_throw (stoi 10 text) bad_number
  guard m.writable stream_failure
  shown ← or_throw (m.files.read (join node (codes "brightness"))) stream_failure
  current_brightness ← sync shown
  storage ← open_state m m.state_file
  ok (record {
    powersave_value = cfg.powersave_value;
    current_brightness = to_unsigned current_brightness;
    max_brightness = to_unsigned max_brightness;
    node = [];
    node_good = true;
    storage = storage;
  })

-- The answers to remove(), open() and bind(), permissions() and chown().
pub record SocketAnswers : Type 0 where
  pub binds : Bool
  pub permits : Bool
  pub chowns : Bool

-- The file of the socket: its owner, and is it for its owner and group only?
pub record SocketFile : Type 0 where
  pub owner : ℕ × ℕ
  pub restricted : Bool

abbrev pub lift : {A : Type 0} → Result PrivilegeError A → Result StartError A
lift (ok a) = ok a
lift (err e) = err (refused e)

abbrev pub is_empty : Bytes → Bool
is_empty [] = true
is_empty _ = false

-- A daemon that serves its socket.
pub record Serving : Type 0 where
  pub context : BacklightContext
  pub socket : SocketFile
  pub process : Process

module _ (db : Accounts) where
  -- SocketContext::init. A configured user has a group that is never a null pointer.
  unfoldable pub init_socket : Config → SocketAnswers → Process → Result StartError SocketFile
  init_socket cfg a p = do
    guard a.binds socket_failed
    elim (is_empty cfg.user) [
      | true ↦ ok (record { owner = (p.uid, p.gid); restricted = false })
      | false ↦ do
        info ← lift (get_uid_gid db (some cfg.user) (some cfg.group))
        guard a.permits socket_failed
        guard a.chowns chown_failed
        ok (record { owner = info; restricted = true })
    ]

  abbrev pub dropped : Result PrivilegeError (Unit {0}) × Process → Result StartError Process
  dropped (ok _, p) = ok p
  dropped (err e, p) = err (refused e)

  -- main up to process().
  unfoldable pub start :
      ConfigFile RawConfig → Machine → SocketAnswers → Answers → Process → Result StartError Serving
  start file m s a p = do
    cfg ← read_config file
    context ← init_backlight cfg m
    socket ← init_socket cfg s p
    process ← dropped (drop_root_privileges db a (some cfg.user) (some cfg.group) p)
    ok (record { context = context; socket = socket; process = process })
