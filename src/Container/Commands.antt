-- ===== src/Container/Commands.antt =====
-- The runs of cryptsetup.
use tjtools.Common.{
  if◌then◌else◌, ◌≡◌, true, false, [], ◌∷◌, Option, none, some, Bytes, codes, equal, arith, ◌==◌,
  Bool-cases, inl, inr,
}
use tjtools.Common.Result.{Result, ok, err}
use tjtools.Common.FilePath.{join}
use tjtools.Container.{
  ContainerConfig, ContainerError, Command, System, by_uuid, mapping, key_address, open_arguments,
  open_command, close_command, open_container, close_container, Options, exited, uncaught,
  container_main, command_failed, notified, execute, code_of, run_child,
}
use tjtools.Container.Specification.{IsSpec, parse_spec_iff}

abbrev pub opening : Bytes → Bytes → Bytes → Command
opening name uuid key = record { arguments = open_arguments (join by_uuid uuid) name; input = key }

abbrev pub closing : Bytes → Command
closing name = record { arguments = codes "close" ∷ mapping name ∷ []; input = [] }

abbrev pub answered : System → Command → Result ContainerError (Unit {0})
answered sys command = if sys.exit_code command == 0 then ok tt else err command_failed

-- For a specification of the grammar, whose device exists and whose key is fetched, open starts one
-- child, with the device, the mapping of the name and the key as its input, and close starts one with
-- the same mapping; each returns exactly if the child's exit code is 0, and throws command_failed
-- otherwise.
pub open_container-close_container :
    (sys : System) (cfg : ContainerConfig) (hostname spec name uuid key : Bytes)
    → IsSpec spec name uuid
    → sys.exists (join by_uuid uuid) ≡ true
    → sys.scp_fetch (key_address cfg hostname spec) ≡ some key
    → (open_container sys cfg hostname spec ≡ record {
      started = opening name uuid key ∷ [];
      outcome = answered sys (opening name uuid key);
    })
      × (close_container sys cfg spec
          ≡ record { started = closing name ∷ []; outcome = answered sys (closing name) })
unfolding open_container open_command close_container close_command
open_container-close_container sys cfg hostname spec name uuid key s d k =
    let p = (parse_spec_iff spec name uuid).0 s in (ground arith, ground arith)

-- An operation that returns has started one child, which exited with 0.
ended :
    (sys : System) (r : Result ContainerError Command)
    → (code_of (run_child sys r)).0 ≡ exited 0
    → (command : Command) × ((code_of (run_child sys r)).1 ≡ command ∷ [])
      × (sys.exit_code command ≡ 0)
ended sys (err e) h = absurd (ground arith)
ended sys (ok command) h = (command, ground arith, ground arith)

executed :
    (sys : System) (cfg : ContainerConfig) (mode hostname spec : Bytes)
    → (execute sys cfg mode hostname spec).0 ≡ exited 0
    → (command : Command) × ((execute sys cfg mode hostname spec).1 ≡ command ∷ [])
      × (sys.exit_code command ≡ 0)
unfolding open_container close_container
executed sys cfg mode hostname spec h = elim (Bool-cases (equal mode (codes "open"))) [
  | inl o ↦ rw o (ended sys (open_command sys cfg hostname spec) (rw o at h))
  | inr o ↦ elim (Bool-cases (equal mode (codes "close"))) [
    | inl c ↦ rw (o, c) (ended sys (close_command spec) (rw (o, c) at h))
    | inr c ↦ absurd (ground arith)
  ]
]

succeeded :
    (sys : System) (config : Option ContainerConfig) (mode hostname spec : Option Bytes)
    → (notified sys config false mode hostname spec).0 ≡ exited 0
    → (command : Command) × ((notified sys config false mode hostname spec).1 ≡ command ∷ [])
      × (sys.exit_code command ≡ 0)
succeeded sys (some cfg) (some mode) (some hostname) (some spec) h =
    executed sys cfg mode hostname spec h
succeeded sys none (some mode) (some hostname) (some spec) h = absurd (ground arith)
succeeded sys config none hostname spec h = absurd (ground arith)
succeeded sys config (some mode) none spec h = absurd (ground arith)
succeeded sys config (some mode) (some hostname) none h = absurd (ground arith)

-- The program exits with 0, without printing its help, only if it has started exactly one child and
-- that child exited with 0: no failed command, and no failed check, is reported as a success.
pub container_main_success :
    (sys : System) (config : Option ContainerConfig) (options : Options)
    → options.help ≡ false
    → (container_main sys config options).0 ≡ exited 0
    → (command : Command) × ((container_main sys config options).1 ≡ command ∷ [])
      × (sys.exit_code command ≡ 0)
unfolding container_main
container_main_success sys config options no_help h =
    rw no_help
      (succeeded sys config options.mode options.hostname options.specification (rw no_help at h))

-- A request for the help text that names no mode ends in an uncaught exception.
pub container_main_help :
    (sys : System) (config : Option ContainerConfig) (options : Options)
    → options.help ≡ true
    → options.mode ≡ none
    → container_main sys config options ≡ (uncaught, [])
unfolding container_main
container_main_help sys config options h m = ground arith
