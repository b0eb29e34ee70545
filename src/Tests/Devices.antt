-- ===== src/Tests/Devices.antt =====
-- src/speedcontrolpp.cpp and src/container.cpp on concrete inputs.
use tjtools.Common.{
  ℕ, ◌≡◌, ◌≢◌, ◌≤◌, ◌<◌, ◌^◌, ◌*◌, ◌↔◌, ◌⊎◌, refl, Bool, true, false, List, [], ◌∷◌, ◌++◌, some,
  none, Option, Bytes, codes, arith, equal, ◌==◌, length, if◌then◌else◌,
}
use tjtools.Common.Result.{ok}
use tjtools.Common.FilePath.{join}
use tjtools.SpeedControl.{
  dump, max_speed, CommandContext, Drive, closed, opened, streaming, speed_main,
}
use tjtools.SpeedControl.Descriptor.{wanted}
use tjtools.SpeedControl.Calls.{
  closings, last, packets, selections, set_streaming_packet, speed_main_cases,
}
use tjtools.Container.{
  ContainerConfig, System, Command, Options, exited, uncaught, parse_spec, by_uuid, mapping,
  open_arguments, key_address, open_container, close_container, container_main,
}
use tjtools.Container.Specification.{IsSpec, parse_spec_iff}
use tjtools.Container.Commands.{opening, container_main_success}
use tjtools.Container.Fetch.{RawConfig, read_config, Piece, Curl, transfer_of, program}
use tjtools.Container.Fetch.Key.{open_options, program_opens}
use tjtools.Common.Json.{ConfigFile, value}

abbrev refusing : Drive
refusing = record {
  opens = true;
  takes_packet = false;
  takes_speed = false;
  sense_text = codes "5.20.0";
}

abbrev ctx : CommandContext
ctx = streaming 182 8

speed_main_cases_example :
    let run =
      speed_main 182
        (record { help = false; device_is_block = some true; speed = some 8 })
        refusing
        ctx in
    ((8 < max_speed)
      × (177 * 8 < 2 ^ 32)
      × (refusing.opens ≡ true)
      × (run.0 ≡ 0)
      × (packets run.1 ≡ (set_streaming_packet 182, wanted 8) ∷ [])
      × (selections run.1 ≡ 8 ∷ [])
      × (closings run.1 ≡ 1)
      × (last opened run.1 ≡ closed))
    ⊎ (((max_speed ≤ 8) ⊎ (refusing.opens ≡ false)) × (run ≡ (3, [])))
speed_main_cases_example = speed_main_cases 182 8 refusing ctx

-- What is printed when the drive refuses both commands; the exit code is that of a success.
refusal_is_dumped :
    dump refusing.sense_text ctx ≡ codes "cmd=b6 0 0 0 0 0 0 0 0 0 1c 0 ; sense=5.20.0\n"
unfolding tjtools.SpeedControl.hex_words tjtools.Text.to_hex tjtools.Text.hex_from
refusal_is_dumped = refl

abbrev cfg : ContainerConfig
cfg = record {
  remote_user = codes "keys";
  remote_host = codes "vault";
  remote_base = codes "store";
}

abbrev sys : System
sys = record {
  exists = λ path. equal path (codes "/dev/disk/by-uuid/1234");
  scp_fetch = λ address.
      if equal address (codes "keys@vault/store/box/key.data.1234") then some (9 ∷ []) else none;
  exit_code = λ command. 0;
}

abbrev spec : Bytes
spec = codes "data.1234"

abbrev options : Options
options = record {
  help = false;
  mode = some (codes "open");
  hostname = some (codes "box");
  specification = some spec;
}

abbrev only_help : Options
only_help = record { help = true; mode = none; hostname = none; specification = none }

spec-IsSpec : IsSpec spec (codes "data") (codes "1234")
spec-IsSpec = record {
  splits = refl;
  no_dot = (omega arith, (omega arith, (omega arith, (omega arith, tt))));
  name_given = refl;
  uuid_given = refl;
}

parse_spec_iff_example :
    IsSpec spec (codes "data") (codes "1234") ↔ (parse_spec spec ≡ ok (codes "data", codes "1234"))
parse_spec_iff_example = parse_spec_iff spec (codes "data") (codes "1234")

-- A remote host that sends a key in two pieces, and its configuration.
abbrev pieces : List Piece
pieces =
    record { memory = 7 ∷ 8 ∷ []; size = 1; nmemb = 2 }
    ∷ record { memory = 9 ∷ []; size = 1; nmemb = 1 }
    ∷ []

abbrev curl : Curl
curl = record {
  easy_init = true;
  home = some (codes "/root");
  perform = λ t.
      if equal t.url (codes "scp://keys@vault/store/box/key.data.1234")
      then (pieces, true)
      else ([], false);
}

abbrev config_file : ConfigFile RawConfig
config_file = record {
  is_regular_file = true;
  good = true;
  content = some (record {
    raw_remote_user = value (codes "keys");
    raw_remote_host = value (codes "vault");
    raw_remote_base = value (codes "store");
  });
}

config_is_read : read_config config_file ≡ ok cfg
unfolding read_config
config_is_read = refl

url_is_key :
    curl.perform (transfer_of (codes "/root") (key_address cfg (codes "box") spec) false)
    ≡ (pieces, true)
unfolding equal join tjtools.Common.FilePath.has_filename
url_is_key = refl

device_exists : sys.exists (join by_uuid (codes "1234")) ≡ true
unfolding equal join tjtools.Common.FilePath.has_filename
device_exists = refl

program_opens_example :
    program sys.exists (λ command. 2) curl config_file (open_options (codes "box") spec)
    ≡ (exited 1, opening (codes "data") (codes "1234") (7 ∷ 8 ∷ 9 ∷ []) ∷ [])
program_opens_example =
    program_opens sys.exists (λ command. 2) curl config_file cfg (codes "box") spec (codes "data")
      (codes "1234") (codes "/root") pieces config_is_read spec-IsSpec device_exists refl refl
      url_is_key (refl, (refl, tt))

container_main_success_example :
    (command : Command) × ((container_main sys (some cfg) options).1 ≡ command ∷ [])
    × (sys.exit_code command ≡ 0)
unfolding container_main equal open_container tjtools.Container.open_command parse_spec
    tjtools.Container.find join
container_main_success_example = container_main_success sys (some cfg) options refl refl
