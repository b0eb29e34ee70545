-- ===== src/Container/Fetch.antt =====
-- ContainerConfig::read, scp_fetch and its callback, and the whole program of src/container.cpp. libcurl is
-- a parameter: it calls back with the pieces that it receives.
pub mod Key
use tjtools.Common.{
  ℕ, ◌*◌, Bool, true, false, not, List, [], ◌∷◌, ◌++◌, Option, none, some, Bytes, codes, take,
  length, if◌then◌else◌,
}
use tjtools.Common.Result.{Result, ok, err, guard, or_throw, ◌>>=◌, ◌>>◌}
use tjtools.Common.Json.{Field, at, ConfigFile}
use tjtools.Common.FilePath.{join}
use tjtools.Container.{ContainerConfig, Command, System, Options, End, container_main}

pub data ConfigError : Type 0 where
  no_config config_denied bad_json : ConfigError

pub record RawConfig : Type 0 where
  pub raw_remote_user : Field Bytes
  pub raw_remote_host : Field Bytes
  pub raw_remote_base : Field Bytes

-- Not one of these exceptions is caught.
unfoldable pub read_config : ConfigFile RawConfig → Result ConfigError ContainerConfig
read_config file = do
  guard file.is_regular_file no_config
  guard file.good config_denied
  config_data ← or_throw file.content bad_json
  remote_user ← at bad_json config_data.raw_remote_user
  remote_host ← at bad_json config_data.raw_remote_host
  remote_base ← at bad_json config_data.raw_remote_base
  ok (record { remote_user = remote_user; remote_host = remote_host; remote_base = remote_base })

-- A call of the callback: the memory that it is given, and the two numbers whose product is its size.
pub record Piece : Type 0 where
  pub memory : Bytes
  pub size : ℕ
  pub nmemb : ℕ

-- The buffer after the call, and the number that is returned.
abbrev pub curl_write_cb : Piece → Bytes → Bytes × ℕ
curl_write_cb piece buffer =
    (buffer ++ take (piece.size * piece.nmemb) piece.memory, piece.size * piece.nmemb)

-- What is set before the transfer.
pub record Transfer : Type 0 where
  pub url : Bytes
  pub private_key : Bytes
  pub public_key : Bytes
  pub verbose : Bool

-- What a transfer does: the calls of the callback in their order, and whether it ends with CURLE_OK.
pub record Curl : Type 0 where
  pub easy_init : Bool
  pub home : Option Bytes
  pub perform : Transfer → List Piece × Bool

pub data FetchError : Type 0 where
  no_handle no_home transfer_failed : FetchError

-- The calls of libcurl that take or give back something.
pub data Resource : Type 0 where
  global_init global_cleanup easy_handle easy_cleanup : Resource

pub record Fetch : Type 0 where
  pub outcome : Result FetchError Bytes
  pub resources : List Resource

abbrev pub receive : List Piece → Bytes → Bytes
receive [] buffer = buffer
receive (piece ∷ pieces) buffer = receive pieces (curl_write_cb piece buffer).0

abbrev pub transfer_of : Bytes → Bytes → Bool → Transfer
transfer_of home address verbose =
    let ssh_dir = join home (codes ".ssh") in
    record {
      url = codes "scp://" ++ address;
      private_key = join ssh_dir (codes "id_ed25519");
      public_key = join ssh_dir (codes "id_ed25519.pub");
      verbose = verbose;
    }

abbrev received : List Piece × Bool → Result FetchError Bytes
received (pieces, fine) = if not fine then err transfer_failed else ok (receive pieces [])

-- A call that takes something, with what follows it; and a scope_guard, whose callback runs at the end of
-- the scope, with an exception or without.
abbrev after : Resource → Fetch → Fetch
after taken rest = record rest { resources = taken ∷ rest.resources }

abbrev guarded : Resource → Fetch → Fetch
guarded callback scope = record scope { resources = scope.resources ++ callback ∷ [] }

abbrev plain : Result FetchError Bytes → Fetch
plain outcome = record { outcome = outcome; resources = [] }

abbrev transferred : Curl → Bytes → Bool → Option Bytes → Fetch
transferred curl address verbose none = plain (err no_home)
transferred curl address verbose (some home) =
    plain (received (curl.perform (transfer_of home address verbose)))

-- The buffer that is fetched, and the calls that take and give back.
unfoldable pub scp_fetch : Curl → Bytes → Bool → Fetch
scp_fetch curl address verbose = after global_init (
    guarded global_cleanup (
      if not curl.easy_init
      then plain (err no_handle)
      else after easy_handle (guarded easy_cleanup (transferred curl address verbose curl.home))))

abbrev pub to_option : {E A : Type 0} → Result E A → Option A
to_option (ok a) = some a
to_option (err e) = none

-- The whole program, over the file system, the exit codes of the children and libcurl.
abbrev pub system : (Bytes → Bool) → (Command → ℕ) → Curl → System
system exists exit_code curl = record {
  exists = exists;
  scp_fetch = λ address. to_option (scp_fetch curl address false).outcome;
  exit_code = exit_code;
}

unfoldable pub program :
    (Bytes → Bool) → (Command → ℕ) → Curl → ConfigFile RawConfig → Options → End × List Command
program exists exit_code curl file options =
    container_main (system exists exit_code curl) (to_option (read_config file)) options
