-- ===== src/Tests/Firmware.antt =====
-- src/amd_microcode.cpp and src/extract_bmi260_fw.cpp on concrete inputs.
use tjtools.Common.{
  ◌%◌, ◌⊎◌, none, false, ◌≡◌, ◌≢◌, refl, [], ◌∷◌, ◌++◌, some, Bytes, arith, replicate, le32, length,
  true, codes,
}
use tjtools.Common.Result.{err}
use tjtools.AmdMicrocode.{
  MicrocodeError, End, Report, outside_mapping, outside_payload, finished, thrown, wrong_magic,
  stop, next, ◌>>=◌, read_patch, read_patch_id, microcode_main,
}
use tjtools.AmdMicrocode.Safety.{microcode_main-ne-outside_mapping}
use tjtools.AmdMicrocode.Patch.{cursor, patch_bytes, read_patch_short}
use tjtools.AmdMicrocode.RoundTrip.{Patch, IsPatch, container}
use tjtools.AmdMicrocode.Program.{Evp, MicrocodeFile, ended, program}
use tjtools.AmdMicrocode.Program.Output.{IsDigest, patches_text, program-container}
use tjtools.Text.{to_hex, hex_from}
use tjtools.ExtractFw.{ExtractError, blob_not_found, extract}
use tjtools.ExtractFw.Search.{scan, extract-scan}
use tjtools.ExtractFw.Blob.{NoBlob, FirstBlob}
use tjtools.ExtractFw.Program.{exited, uncaught, extract_main}
use tjtools.ExtractFw.Outcome.{extract_main_cases}
use tjtools.Common.Int.{pos, negsuc}

abbrev zen : Patch
zen = record {
  cpu = 0x00a50f00;
  entry_tail = replicate 12 0;
  payload = le32 0 ++ (le32 0x0a50000c ++ replicate 56 0);
}

zen-IsPatch : IsPatch zen
zen-IsPatch = record {
  some_cpu = omega arith;
  cpu_word = omega arith;
  tail_size = refl;
  has_header = omega arith;
  size_word = omega arith;
}

bad_magic : microcode_main (replicate 12 0) ≡ ([], thrown wrong_magic)
unfolding microcode_main tjtools.AmdMicrocode.read_table tjtools.AmdMicrocode.copy
bad_magic = refl

-- A library whose digest is the length of the payload, in 32 bytes.
abbrev sha256 : Bytes → Bytes
sha256 payload = length payload % 256 ∷ replicate 31 0

abbrev evp : Evp
evp = record {
  new = true;
  init = true;
  update = λ payload. true;
  final = λ payload. some (sha256 payload);
  reset = true;
}

evp-IsDigest : IsDigest evp sha256
evp-IsDigest = record {
  new = refl;
  init = refl;
  update = λ payload. refl;
  final = λ payload. refl;
  reset = refl;
  size = λ payload. refl;
  bytes = λ payload. omega arith;
}

abbrev zen_file : MicrocodeFile
zen_file = record { opens = true; fstat = true; mmap = true; content = container (zen ∷ []) }

program-container_example :
    program evp (some zen_file) ≡ (patches_text sha256 (zen ∷ []), ended finished)
program-container_example =
    program-container evp sha256 zen_file (zen ∷ []) evp-IsDigest refl refl refl refl
      (zen-IsPatch, tt) (omega arith)

-- What that is.
zen_text :
    patches_text sha256 (zen ∷ [])
    ≡ codes "installed_cpu=0xa50f00\npatch_id=0xa50000c\ndigest={"
      ++ (codes "\n0x40,0x00,0x00,0x00,0x00,0x00,0x00,0x00,"
          ++ (codes "\n0x00,0x00,0x00,0x00,0x00,0x00,0x00,0x00,"
              ++ (codes "\n0x00,0x00,0x00,0x00,0x00,0x00,0x00,0x00,"
                  ++ codes "\n0x00,0x00,0x00,0x00,0x00,0x00,0x00,0x00}\n")))
unfolding to_hex hex_from
zen_text = refl

microcode_main-ne-outside_mapping_example :
    (microcode_main (container (zen ∷ []))).1 ≢ outside_mapping
microcode_main-ne-outside_mapping_example = microcode_main-ne-outside_mapping (container (zen ∷ []))

read_patch_short_example :
    read_patch 7 (cursor (patch_bytes (1 ∷ 2 ∷ []) (replicate 62 0))) ≡ stop outside_payload
read_patch_short_example =
    read_patch_short 7 (1 ∷ 2 ∷ []) (replicate 62 0) (omega arith) (omega arith)

abbrev truncated : Bytes
truncated = 0xc8 ∷ 0x2e ∷ 0x00 ∷ 0x2e ∷ 0x80 ∷ 0x2e ∷ 0 ∷ []

no_blob : extract (1 ∷ 2 ∷ 3 ∷ []) ≡ some (err blob_not_found)
unfolding extract tjtools.ExtractFw.extract_from tjtools.ExtractFw.locate
    tjtools.ExtractFw.has_prefix
no_blob = refl

extract-scan_example : extract truncated ≡ some (scan truncated)
extract-scan_example = extract-scan truncated

extract_main_cases_example :
    let run = extract_main (
      some (record {
        exists = true;
        is_regular_file = true;
        content = some truncated;
        writable = true;
      })) in
    ((blob : Bytes) × FirstBlob truncated blob × (run ≡ (exited (pos 0), some blob)))
    ⊎ (NoBlob truncated × (run ≡ (exited (negsuc 2), none)))
extract_main_cases_example = extract_main_cases truncated

-- A path that does not exist is not caught.
missing_input :
    extract_main
      (some (record { exists = false; is_regular_file = false; content = none; writable = true }))
    ≡ (uncaught, none)
unfolding extract_main
missing_input = refl
