-- ===== src/Tests/Host.antt =====
-- src/brightness_utils on concrete inputs.
use mathlib.Core.Bool.{◌||◌}
use tjtools.Common.{
  ℕ, ◌<◌, ◌≡◌, ◌≢◌, ◌↔◌, refl, Bool, true, false, List, [], ◌∷◌, ◌++◌, Option, none, some, Bytes,
  codes, arith, ◌⊎◌, ◌==◌, if◌then◌else◌, equal, All,
}
use tjtools.Common.Int.{pos}
use tjtools.Common.FilePath.{join}
use tjtools.Text.{extract}
use tjtools.Brightness.Privileges.{
  Passwd, Accounts, Answers, Process, PrivilegeError, get_uid_gid, target, drop_root_privileges,
  setuid_failed,
}
use tjtools.Brightness.Privileges.Laws.{IsFound, drop_root_privileges_failure}
use tjtools.Brightness.Sysfs.{
  Files, Outcome, defined, undefined, BacklightIdentifier, DirEntry, sysfs_base_path, rstrip,
  get_parent_device, read_sysfs, matches, lookup_backlight_node, is_parent_device,
  identify_backlight, device,
}
use tjtools.Brightness.Sysfs.Parent.{Climbs, found, up, links, get_parent_device_iff}
use tjtools.Brightness.Sysfs.Lookup.{
  IsMatch, Describes, lookup_backlight_node_lem, lookup_backlight_node_finds,
}

abbrev accounts : Accounts
accounts = record {
  getgrnam = λ name. if equal name (codes "video") then some 44 else none;
  getgrgid = λ gid. some gid;
  getpwnam = λ name.
      if equal name (codes "tobias") then some (record { pw_uid = 1000; pw_gid = 1000 }) else none;
  member_groups = λ name gid. gid ∷ [];
}

abbrev granted : Answers
granted = record { setgid = true; setgroups = true; initgroups = true; chdir = true; setuid = true }

abbrev stubborn : Answers
stubborn = record granted { setuid = false }

abbrev root : Process
root = record { uid = 0; gid = 0; groups = 0 ∷ []; cwd = codes "/root" }

abbrev user : Option Bytes
user = some (codes "tobias")

abbrev group : Option Bytes
group = some (codes "video")

drop_root_privileges_failure_example :
    let q = (drop_root_privileges accounts stubborn user group root).1 in
    (root.uid ≡ 0)
    × (q.uid ≡ 0)
    × ((q ≡ root)
        ⊎ ((name : Bytes) × (uid : ℕ) × (gid : ℕ) × IsFound accounts user group name uid gid))
unfolding drop_root_privileges tjtools.Brightness.Privileges.target equal
    tjtools.Brightness.Privileges.become
drop_root_privileges_failure_example =
    drop_root_privileges_failure accounts stubborn user group root setuid_failed refl

-- A node whose link `device` leads to a PCI device.
abbrev node : Bytes
node = join sysfs_base_path (codes "amdgpu_bl1")

abbrev pci : Bytes
pci = join node (codes "device")

abbrev tree : Files
tree = record {
  is_regular_file = λ path.
      equal path (join pci (codes "class"))
      || equal path (join pci (codes "vendor"))
      || equal path (join pci (codes "device"));
  is_symlink = λ path. equal path pci;
  is_directory = λ path. equal path sysfs_base_path;
  read = λ path.
      if equal path (join pci (codes "vendor"))
      then some (codes "0x1002\n")
      else if equal path (join pci (codes "device"))
      then some (codes "0x1638\n")
      else none;
}

abbrev ident : BacklightIdentifier
ident = record { prefix = codes "amdgpu_bl"; vendor_id = 4098; device_id = 5688 }

abbrev other : DirEntry
other = record { filename = codes "acpi_video0"; symlink = true }

abbrev wanted : DirEntry
wanted = record { filename = codes "amdgpu_bl1"; symlink = true }

climb : Climbs tree node (some pci)
unfolding equal is_parent_device tjtools.Common.FilePath.join tjtools.Common.FilePath.has_filename
climb = up {path = node} refl refl (found refl)

get_parent_device_iff_example :
    (get_parent_device tree 5 node ≡ some (some pci))
    ↔ ((c : Climbs tree node (some pci)) × (links c < 5))
get_parent_device_iff_example = get_parent_device_iff tree 5 node (some pci)

lookup_backlight_node_lem_example :
    Describes tree 5 sysfs_base_path ident
      (other ∷ wanted ∷ [])
      (lookup_backlight_node tree 5 ident (other ∷ wanted ∷ []))
unfolding equal
lookup_backlight_node_lem_example =
    lookup_backlight_node_lem tree 5 ident (other ∷ wanted ∷ []) refl

wanted-IsMatch : IsMatch tree sysfs_base_path ident wanted
unfolding identify_backlight equal is_parent_device tjtools.Common.FilePath.join
    tjtools.Common.FilePath.has_filename tjtools.Brightness.Sysfs.starts_with read_sysfs rstrip
    tjtools.Brightness.Sysfs.skip_reversed extract tjtools.Text.word tjtools.Text.skip_spaces
    tjtools.Text.stoi tjtools.Text.digit tjtools.Text.scan_digits
wanted-IsMatch = record {
  is_link = refl;
  named = refl;
  parent = pci;
  climbs = climb;
  vendor = record {
    text = codes "0x1002";
    number = pos 4098;
    reading = refl;
    is_number = refl;
    same = refl;
  };
  device = record {
    text = codes "0x1638";
    number = pos 5688;
    reading = refl;
    is_number = refl;
    same = refl;
  };
}

lookup_backlight_node_finds_example :
    lookup_backlight_node tree 5 ident (other ∷ wanted ∷ []) ≡ some (defined (some node))
unfolding matches tjtools.Brightness.Sysfs.starts_with equal wanted-IsMatch climb
lookup_backlight_node_finds_example =
    lookup_backlight_node_finds tree 5 ident wanted (other ∷ []) [] wanted-IsMatch refl
      (omega arith) (refl, tt)
