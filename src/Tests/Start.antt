-- ===== src/Tests/Start.antt =====
-- The start of the brightness daemon on a host with one backlight.
use tjtools.Common.{
  ℕ, ◌≡◌, ◌≢◌, refl, ap, Bool, true, false, ◌||◌, List, [], ◌∷◌, Option, none, some, Bytes, codes,
  arith, if◌then◌else◌, equal, le32, replicate,
}
use tjtools.Common.Result.{ok, err}
use tjtools.Text.{to_string}
use tjtools.Common.Json.{ConfigFile, value, missing}
use tjtools.Common.FilePath.{join}
use tjtools.Brightness.Backlight.{BacklightContext, Io, returned, restore_state}
use tjtools.Brightness.Backlight.Persistence.{restored}
use tjtools.Brightness.Life.{Host, brightness_main}
use tjtools.Brightness.Life.Reboot.{HasBacklight, reboot_restores}
use tjtools.Brightness.Backlight.Bounds.{Inv}
use tjtools.Brightness.Daemon.{Event, datagram, signalled, started, run, daemon_main}
use tjtools.Brightness.Privileges.{Passwd, Accounts, Answers, Process, no_group}
use tjtools.Brightness.Sysfs.{
  Files, defined, BacklightIdentifier, DirEntry, sysfs_base_path, lookup_backlight_node,
}
use tjtools.Brightness.Startup.{
  RawConfig, RawIdentifier, Config, Machine, SocketAnswers, SocketFile, Serving, init_backlight,
  read_config, start, refused,
}
use tjtools.Brightness.Startup.Opening.{IsNode, Mirrors, init_backlight-run}
use tjtools.Brightness.Startup.Service.{Gives, start-owner}

abbrev node : Bytes
node = join sysfs_base_path (codes "amdgpu_bl1")

abbrev pci : Bytes
pci = join node (codes "device")

abbrev content : Bytes → Option Bytes
content path =
    if equal path (join pci (codes "vendor"))
    then some (codes "0x1002\n")
    else if equal path (join pci (codes "device"))
    then some (codes "0x1638\n")
    else if equal path (join node (codes "max_brightness"))
    then some (codes "255\n")
    else if equal path (join node (codes "brightness"))
    then some (codes "100\n")
    else none

abbrev tree : Files
tree = record {
  is_regular_file = λ path.
      equal path (join pci (codes "class"))
      || equal path (join pci (codes "vendor"))
      || equal path (join pci (codes "device"));
  is_symlink = λ path. equal path pci;
  is_directory = λ path. equal path sysfs_base_path;
  read = content;
}

abbrev machine : Machine
machine = record {
  files = tree;
  entries = record { filename = codes "amdgpu_bl1"; symlink = true } ∷ [];
  links = 5;
  writable = true;
  state_file = some (le32 7);
  has_directory = true;
  makes_directory = false;
  makes_file = false;
  storage_opens = true;
}

abbrev cfg : Config
cfg = record {
  user = codes "bl";
  group = codes "bl";
  identifier = record { prefix = codes "amdgpu_bl"; vendor_id = 4098; device_id = 5688 };
  state_path = codes "/var/lib/bl/state";
  socket_path = codes "/run/bl.sock";
  powersave_value = 20;
}

node_is_found :
    lookup_backlight_node tree 5 cfg.identifier machine.entries ≡ some (defined (some node))
unfolding lookup_backlight_node tjtools.Brightness.Sysfs.first_match
    tjtools.Brightness.Sysfs.matches tjtools.Brightness.Sysfs.get_parent_device
    tjtools.Brightness.Sysfs.is_parent_device tjtools.Brightness.Sysfs.identify_backlight
    tjtools.Brightness.Sysfs.starts_with tjtools.Brightness.Sysfs.read_sysfs
    tjtools.Brightness.Sysfs.rstrip tjtools.Brightness.Sysfs.skip_reversed
    tjtools.Common.FilePath.join tjtools.Common.FilePath.has_filename equal tjtools.Text.extract
    tjtools.Text.word tjtools.Text.skip_spaces tjtools.Text.stoi tjtools.Text.digit
    tjtools.Text.scan_digits
node_is_found = refl

tree-IsNode : IsNode tree node 100 255
unfolding tjtools.Common.FilePath.join tjtools.Common.FilePath.has_filename equal
    tjtools.Text.extract tjtools.Text.word tjtools.Text.skip_spaces tjtools.Text.to_string
    tjtools.Text.digits_from
tree-IsNode = record {
  at_max = codes "255\n";
  at_brightness = codes "100\n";
  max_file = refl;
  brightness_file = refl;
  max_shown = refl;
  brightness_shown = refl;
  within = omega arith;
  max_int = omega arith;
}

abbrev fine : Io
fine = record { accepts = true; stores = true; left = []; truncates = true }

init_backlight-run_example :
    (ctx : BacklightContext) × (init_backlight cfg machine ≡ ok ctx)
    × (ctx.current_brightness ≡ 100)
    × Mirrors
        (to_string 100)
        255
        (run
          (started false (restore_state fine ctx).1)
          (datagram fine (0 ∷ 4 ∷ le32 300) ∷ [])).context
    × Inv
        (run
          (started false (restore_state fine ctx).1)
          (datagram fine (0 ∷ 4 ∷ le32 300) ∷ [])).context
init_backlight-run_example =
    init_backlight-run cfg machine node 100 255 false fine (datagram fine (0 ∷ 4 ∷ le32 300) ∷ [])
      node_is_found tree-IsNode refl refl

abbrev accounts : Accounts
accounts = record {
  getgrnam = λ name. if equal name (codes "bl") then some 30 else none;
  getgrgid = λ gid. none;
  getpwnam =
      λ name. if equal name (codes "bl") then some (record { pw_uid = 20; pw_gid = 30 }) else none;
  member_groups = λ name gid. gid ∷ [];
}

abbrev willing : Answers
willing = record { setgid = true; setgroups = true; initgroups = true; chdir = true; setuid = true }

abbrev root : Process
root = record { uid = 0; gid = 0; groups = []; cwd = codes "/root" }

abbrev raw_config : Bytes → RawConfig
raw_config user = record {
  raw_user = value user;
  raw_group = value user;
  raw_identifier = value (record {
    raw_prefix = value (codes "amdgpu_bl");
    raw_vendor_id = value (codes "0x1002");
    raw_device_id = value (codes "0x1638");
  });
  raw_state_path = value (codes "/var/lib/bl/state");
  raw_socket_path = value (codes "/run/bl.sock");
  raw_powersave_value = value 20;
}

abbrev file : RawConfig → ConfigFile RawConfig
file raw = record { is_regular_file = true; good = true; content = some raw }

abbrev bound : SocketAnswers
bound = record { binds = true; permits = true; chowns = true }

abbrev serving : Serving
serving = record {
  context = record {
    powersave_value = 20;
    current_brightness = 100;
    max_brightness = 255;
    node = [];
    node_good = true;
    storage = record { content = le32 7; position = 0; good = true };
  };
  socket = record { owner = (20, 30); restricted = true };
  process = record { uid = 20; gid = 30; groups = 30 ∷ []; cwd = codes "/" };
}

starts : start accounts (file (raw_config (codes "bl"))) machine bound willing root ≡ ok serving
unfolding start tjtools.Brightness.Startup.read_config tjtools.Brightness.Startup.parse_identifier
    tjtools.Brightness.Startup.init_socket init_backlight lookup_backlight_node
    tjtools.Brightness.Sysfs.first_match tjtools.Brightness.Sysfs.matches
    tjtools.Brightness.Sysfs.get_parent_device tjtools.Brightness.Sysfs.is_parent_device
    tjtools.Brightness.Sysfs.identify_backlight tjtools.Brightness.Sysfs.starts_with
    tjtools.Brightness.Sysfs.read_sysfs tjtools.Brightness.Sysfs.rstrip
    tjtools.Brightness.Sysfs.skip_reversed tjtools.Common.FilePath.join
    tjtools.Common.FilePath.has_filename equal tjtools.Text.extract tjtools.Text.word
    tjtools.Text.skip_spaces tjtools.Text.stoi tjtools.Text.digit tjtools.Text.scan_digits
    tjtools.Text.to_string tjtools.Text.digits_from
    tjtools.Brightness.Privileges.drop_root_privileges tjtools.Brightness.Privileges.get_uid_gid
    tjtools.Brightness.Privileges.target tjtools.Brightness.Privileges.become
starts = refl

no_empty_name : accounts.getpwnam [] ≡ none
unfolding equal
no_empty_name = refl

start-owner_example :
    (raw : RawConfig) × (user : Bytes) × (group : Bytes) × (pwd : Passwd) × (gid : ℕ) × ((file
        (raw_config (codes "bl"))).content
      ≡ some raw)
    × (raw.raw_user ≡ value user)
    × Gives raw.raw_group group
    × (accounts.getpwnam user ≡ some pwd)
    × (accounts.getgrnam group ≡ some gid)
    × (pwd.pw_uid ≢ 0)
    × (gid ≢ 0)
    × (serving.process ≡ record {
      uid = pwd.pw_uid;
      gid = gid;
      groups = if willing.initgroups then accounts.member_groups user gid else [];
      cwd = codes "/";
    })
    × (serving.socket.owner ≡ (pwd.pw_uid, gid))
    × (serving.socket.restricted ≡ true)
start-owner_example =
    start-owner accounts (file (raw_config (codes "bl"))) machine bound willing root serving
      no_empty_name refl starts

-- User and group may be left out of the configuration, but then a daemon of root does not start.
user_is_required :
    start accounts
      (file (record (raw_config []) { raw_user = missing; raw_group = missing }))
      machine
      bound
      willing
      root
    ≡ err (refused no_group)
unfolding start tjtools.Brightness.Startup.read_config tjtools.Brightness.Startup.parse_identifier
    tjtools.Brightness.Startup.init_socket init_backlight lookup_backlight_node
    tjtools.Brightness.Sysfs.first_match tjtools.Brightness.Sysfs.matches
    tjtools.Brightness.Sysfs.get_parent_device tjtools.Brightness.Sysfs.is_parent_device
    tjtools.Brightness.Sysfs.identify_backlight tjtools.Brightness.Sysfs.starts_with
    tjtools.Brightness.Sysfs.read_sysfs tjtools.Brightness.Sysfs.rstrip
    tjtools.Brightness.Sysfs.skip_reversed tjtools.Common.FilePath.join
    tjtools.Common.FilePath.has_filename equal tjtools.Text.extract tjtools.Text.word
    tjtools.Text.skip_spaces tjtools.Text.stoi tjtools.Text.digit tjtools.Text.scan_digits
    tjtools.Text.to_string tjtools.Text.digits_from
    tjtools.Brightness.Privileges.drop_root_privileges tjtools.Brightness.Privileges.get_uid_gid
    tjtools.Brightness.Privileges.target tjtools.Brightness.Privileges.become
user_is_required = refl

-- A daemon of that host is set to 40 and stopped, and another one started.
abbrev host : Host
host = record {
  accounts = accounts;
  config = file (raw_config (codes "bl"));
  machine = machine;
  socket = bound;
  privileges = willing;
  process = root;
  at_start = fine;
  at_end = fine;
}

abbrev events : List Event
events = datagram fine (0 ∷ 4 ∷ le32 40) ∷ signalled true ∷ []

abbrev last : BacklightContext
last = record serving.context {
  current_brightness = 40;
  node = codes "40" ∷ codes "7" ∷ [];
  storage = record { content = le32 40; position = 0; good = true };
}

day_of_serving : daemon_main fine events fine serving.context ≡ (returned, last)
unfolding daemon_main restore_state run tjtools.Brightness.Daemon.step
    tjtools.Brightness.Daemon.receive tjtools.Brightness.Daemon.received
    tjtools.Brightness.Frame.handle_frame tjtools.Brightness.Frame.command_type
    tjtools.Brightness.Frame.dispatch tjtools.Brightness.Backlight.set_state
    tjtools.Brightness.Backlight.save_state tjtools.Text.to_string tjtools.Text.digits_from
day_of_serving = refl

first_ends : brightness_main host events ≡ ok (returned, last)
unfolding brightness_main
first_ends = rw starts (ap ok day_of_serving)

config_is_read : read_config (file (raw_config (codes "bl"))) ≡ ok cfg
unfolding read_config tjtools.Brightness.Startup.parse_identifier tjtools.Text.stoi
    tjtools.Text.digit tjtools.Text.scan_digits tjtools.Text.skip_spaces
config_is_read = refl

abbrev next_machine : Machine
next_machine = record machine { state_file = some (le32 40) }

machine-HasBacklight : HasBacklight cfg machine 255
machine-HasBacklight = record {
  node = node;
  current = 100;
  found = node_is_found;
  shows = tree-IsNode;
  writable = refl;
  has_directory = refl;
}

next-HasBacklight : HasBacklight cfg next_machine 255
next-HasBacklight = record {
  node = node;
  current = 100;
  found = node_is_found;
  shows = tree-IsNode;
  writable = refl;
  has_directory = refl;
}

reboot_restores_example :
    (ctx : BacklightContext) × (init_backlight cfg next_machine ≡ ok ctx)
    × (restore_state fine ctx ≡ (returned, restored 40 ctx))
reboot_restores_example =
    reboot_restores host cfg cfg next_machine 255 255 events last fine config_is_read
      machine-HasBacklight first_ends next-HasBacklight refl refl (omega arith) refl refl
