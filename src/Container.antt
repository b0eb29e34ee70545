-- ===== src/Container.antt =====
-- src/container.cpp: opens and closes encrypted containers by cryptsetup. The file system, libcurl, the
-- JSON configuration file and the child process are parameters.
pub mod Specification
pub mod Commands
pub mod Fetch
use tjtools.Common.{
  ℕ, zero, suc, Bool, true, false, not, List, [], ◌∷◌, ◌++◌, Option, none, some, Bytes, codes,
  equal, take, drop, ◌==◌, if◌then◌else◌,
}
use tjtools.Common.Result.{Result, ok, err, guard, or_throw, ◌>>=◌, ◌>>◌}
use tjtools.Common.FilePath.{join}

pub record ContainerConfig : Type 0 where
  pub remote_user : Bytes
  pub remote_host : Bytes
  pub remote_base : Bytes

-- What the two operations throw.
pub data ContainerError : Type 0 where
  malformed_spec empty_name empty_uuid no_device fetch_failed command_failed : ContainerError

-- A run of cryptsetup: its arguments and its standard input.
pub record Command : Type 0 where
  pub arguments : List Bytes
  pub input : Bytes

pub record System : Type 0 where
  pub exists : Bytes → Bool
  -- scp_fetch, which throws or fills the buffer.
  pub scp_fetch : Bytes → Option Bytes
  -- The exit code of the child.
  pub exit_code : Command → ℕ

abbrev pub empty : Bytes → Bool
empty [] = true
empty (_ ∷ _) = false

abbrev after_first : Option ℕ → Option ℕ
after_first none = none
after_first (some pos) = some (suc pos)

-- std::string_view::find of a character.
unfoldable pub find : ℕ → Bytes → Option ℕ
find c [] = none
find c (x ∷ text) = let later = find c text in if x == c then some 0 else after_first later

-- The lines with which both open and close start: the name and the UUID.
unfoldable pub parse_spec : Bytes → Result ContainerError (Bytes × Bytes)
parse_spec spec = do
  pos ← or_throw (find b'.' spec) malformed_spec
  guard (not (empty (take pos spec))) empty_name
  guard (not (empty (drop (suc pos) spec))) empty_uuid
  ok (take pos spec, drop (suc pos) spec)

abbrev pub by_uuid : Bytes
by_uuid = codes "/dev/disk/by-uuid"

abbrev pub mapping : Bytes → Bytes
mapping name = codes "container-" ++ name

-- The address of the key.
abbrev pub key_address : ContainerConfig → Bytes → Bytes → Bytes
key_address cfg hostname spec =
    cfg.remote_user
    ++ b'@' ∷ cfg.remote_host
    ++ b'/' ∷ join (join cfg.remote_base hostname) (codes "key." ++ spec)

abbrev pub open_arguments : Bytes → Bytes → List Bytes
open_arguments device name =
    codes "open"
    ∷ codes "--allow-discards"
    ∷ codes "--key-file"
    ∷ codes "-"
    ∷ device
    ∷ mapping name
    ∷ []

-- What open does before it starts the child.
unfoldable pub open_command :
    System → ContainerConfig → Bytes → Bytes → Result ContainerError Command
open_command sys cfg hostname spec = do
  parts ← parse_spec spec
  guard (sys.exists (join by_uuid parts.1)) no_device
  key ← or_throw (sys.scp_fetch (key_address cfg hostname spec)) fetch_failed
  ok (record { arguments = open_arguments (join by_uuid parts.1) parts.0; input = key })

unfoldable pub close_command : Bytes → Result ContainerError Command
close_command spec = do
  parts ← parse_spec spec
  ok (record { arguments = codes "close" ∷ mapping parts.0 ∷ []; input = [] })

-- The children that were started, and whether the operation returns.
pub record Run : Type 0 where
  pub started : List Command
  pub outcome : Result ContainerError (Unit {0})

-- The child and its exit code, the last lines of both. A child that cannot be launched makes bp::child
-- throw; like one with another exit code than 0, it ends in the error that main reports.
abbrev run_child : System → Result ContainerError Command → Run
run_child sys (err e) = record { started = []; outcome = err e }
run_child sys (ok command) = record {
  started = command ∷ [];
  outcome = guard (sys.exit_code command == 0) command_failed;
}

unfoldable pub open_container : System → ContainerConfig → Bytes → Bytes → Run
open_container sys cfg hostname spec = run_child sys (open_command sys cfg hostname spec)

unfoldable pub close_container : System → ContainerConfig → Bytes → Run
close_container sys cfg spec = run_child sys (close_command spec)

-- The command line, with the options that it gives.
pub record Options : Type 0 where
  pub help : Bool
  pub mode : Option Bytes
  pub hostname : Option Bytes
  pub specification : Option Bytes

-- An exception that main does not catch ends the program.
pub data End : Type 0 where
  exited : ℕ → End
  uncaught : End

abbrev code_of : Run → End × List Command
code_of run = elim run.outcome [ ok _ ↦ (exited 0, run.started) | err _ ↦ (exited 1, run.started) ]

abbrev execute : System → ContainerConfig → Bytes → Bytes → Bytes → End × List Command
execute sys cfg mode hostname spec =
    if equal mode (codes "open")
    then code_of (open_container sys cfg hostname spec)
    else if equal mode (codes "close")
    then code_of (close_container sys cfg spec)
    else (exited 1, [])

-- The configuration is read before the try block.
abbrev configured : System → Option ContainerConfig → Bytes → Bytes → Bytes → End × List Command
configured sys none mode hostname spec = (uncaught, [])
configured sys (some cfg) mode hostname spec = execute sys cfg mode hostname spec

abbrev notified :
    System
    → Option ContainerConfig
    → Bool
    → Option Bytes
    → Option Bytes
    → Option Bytes
    → End × List Command
notified sys config help (some mode) (some hostname) (some spec) =
    let run = configured sys config mode hostname spec in if help then (exited 0, []) else run
notified sys config help _ _ _ = (uncaught, [])

-- po::notify throws if a required option is missing, and it stands before the test of `help`.
unfoldable pub container_main : System → Option ContainerConfig → Options → End × List Command
container_main sys config options =
    notified sys config options.help options.mode options.hostname options.specification
