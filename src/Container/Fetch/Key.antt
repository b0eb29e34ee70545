-- ===== src/Container/Fetch/Key.antt =====
-- The way of the key through src/container.cpp: from the pieces of the transfer to cryptsetup.
use tjtools.Common.{
  ℕ, ◌*◌, ◌≡◌, sym, ap, ◌∙◌, Bool, true, false, List, [], ◌∷◌, ◌++◌, some, Bytes, codes, equal,
  take_all, length, All, arith, if◌then◌else◌, ◌==◌,
}
use mathlib.Core.List.{append_assoc, append-nil}
use tjtools.Common.Result.{ok}
use tjtools.Common.Json.{ConfigFile}
use tjtools.Common.FilePath.{join}
use tjtools.Container.{
  ContainerConfig, Command, System, by_uuid, key_address, Options, exited, container_main,
}
use tjtools.Container.Specification.{IsSpec}
use tjtools.Container.Commands.{opening, open_container-close_container}
use tjtools.Container.Fetch.{
  RawConfig, read_config, Piece, Curl, receive, transfer_of, Fetch, scp_fetch, global_init,
  global_cleanup, easy_handle, easy_cleanup, to_option, system, program,
}

-- libcurl says how long the memory of a piece is.
abbrev pub IsPiece : Piece → Type 0
IsPiece piece = length piece.memory ≡ piece.size * piece.nmemb

-- What the remote host has sent.
abbrev pub sent : List Piece → Bytes
sent [] = []
sent (piece ∷ pieces) = piece.memory ++ sent pieces

receive-sent :
    (pieces : List Piece) (buffer : Bytes)
    → All IsPiece pieces
    → receive pieces buffer ≡ buffer ++ sent pieces
receive-sent [] buffer h = sym (append-nil buffer)
receive-sent (piece ∷ pieces) buffer (whole, h) =
    let all = take_all (piece.size * piece.nmemb) piece.memory (omega (arith, whole)) in
    ap (λ m. receive pieces (buffer ++ m)) all
    ∙ receive-sent pieces (buffer ++ piece.memory) h
    ∙ append_assoc buffer piece.memory (sent pieces)

-- A transfer that succeeds gives what was sent, and gives back what it has taken, in reverse order.
pub scp_fetch-sent :
    (curl : Curl) (address home : Bytes) (verbose : Bool) (pieces : List Piece)
    → curl.easy_init ≡ true
    → curl.home ≡ some home
    → curl.perform (transfer_of home address verbose) ≡ (pieces, true)
    → All IsPiece pieces
    → scp_fetch curl address verbose ≡ record {
      outcome = ok (sent pieces);
      resources = global_init ∷ easy_handle ∷ easy_cleanup ∷ global_cleanup ∷ [];
    }
unfolding scp_fetch
scp_fetch-sent curl address home verbose pieces i h p whole =
    simp (i, h, p)
      (ap
        (λ b. record {
          outcome = ok b;
          resources = global_init ∷ easy_handle ∷ easy_cleanup ∷ global_cleanup ∷ [];
        })
        (receive-sent pieces [] whole))

abbrev pub open_options : Bytes → Bytes → Options
open_options hostname spec = record {
  help = false;
  mode = some (codes "open");
  hostname = some hostname;
  specification = some spec;
}

open_main :
    (sys : System) (cfg : ContainerConfig) (hostname spec name uuid key : Bytes)
    → IsSpec spec name uuid
    → sys.exists (join by_uuid uuid) ≡ true
    → sys.scp_fetch (key_address cfg hostname spec) ≡ some key
    → container_main sys (some cfg) (open_options hostname spec) ≡ (
      exited (if sys.exit_code (opening name uuid key) == 0 then 0 else 1),
      opening name uuid key ∷ [],
    )
unfolding container_main equal
open_main sys cfg hostname spec name uuid key s d k =
    rw (open_container-close_container sys cfg hostname spec name uuid key s d k).0 (ground arith)

-- With a configuration that is read, a specification of the grammar whose device exists, and a transfer
-- that succeeds, `container --mode open` starts one child: cryptsetup with the device and the mapping of
-- the name, and with the bytes that the remote host has sent, in their order, on its standard input. The
-- program exits with 0 exactly if that child does, and with 1 otherwise.
pub program_opens :
    (exists : Bytes → Bool) (exit_code : Command → ℕ) (curl : Curl) (file : ConfigFile RawConfig)
    (cfg : ContainerConfig) (hostname spec name uuid home : Bytes) (pieces : List Piece)
    → read_config file ≡ ok cfg
    → IsSpec spec name uuid
    → exists (join by_uuid uuid) ≡ true
    → curl.easy_init ≡ true
    → curl.home ≡ some home
    → curl.perform (transfer_of home (key_address cfg hostname spec) false) ≡ (pieces, true)
    → All IsPiece pieces
    → let command = opening name uuid (sent pieces) in
      program exists exit_code curl file (open_options hostname spec)
      ≡ (exited (if exit_code command == 0 then 0 else 1), command ∷ [])
unfolding program
program_opens exists exit_code curl file cfg hostname spec name uuid home pieces r s d i h p whole =
    let address = key_address cfg hostname spec in
    let fetched =
      ap (λ (f : Fetch). to_option f.outcome)
        (scp_fetch-sent curl address home false pieces i h p whole) in
    ap
      (λ c.
        container_main (system exists exit_code curl) (to_option c) (open_options hostname spec))
      r
    ∙ open_main (system exists exit_code curl) cfg hostname spec name uuid (sent pieces) s d fetched
