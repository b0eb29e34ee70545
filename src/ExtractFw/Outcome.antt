-- ===== src/ExtractFw/Outcome.antt =====
-- The exit code of src/extract_bmi260_fw.cpp, and the file that it writes.
use tjtools.Common.{◌≡◌, ◌⊎◌, inl, inr, refl, true, none, some, Bytes}
use tjtools.Common.Int.{pos, negsuc}
use tjtools.Common.Result.{Result, ok, err}
use tjtools.ExtractFw.{ExtractError, extract}
use tjtools.ExtractFw.Blob.{NoBlob, FirstBlob, Explains, extract-Explains}
use tjtools.ExtractFw.Program.{exited, extract_main}

-- With 0 for a blob that is written, and with -3 otherwise.
outcome :
    (buffer : Bytes) (r : Result ExtractError Bytes)
    → extract buffer ≡ some r
    → Explains buffer r
    → let run = extract_main (
        some (record {
          exists = true;
          is_regular_file = true;
          content = some buffer;
          writable = true;
        })) in
      ((blob : Bytes) × FirstBlob buffer blob × (run ≡ (exited (pos 0), some blob)))
      ⊎ (NoBlob buffer × (run ≡ (exited (negsuc 2), none)))
unfolding extract_main
outcome buffer (err e) found x = inr (x, rw found refl)
outcome buffer (ok blob) found x = inl (blob, x, rw found refl)

-- For a regular file that can be read, and an output that can be written, the program comes to an end: it
-- writes the 8192 bytes from the first place on where the header stands with as many bytes behind it,
-- and exits with 0; or the file has no such place, nothing is written, and it exits with -3.
pub extract_main_cases :
    (buffer : Bytes)
    → let run = extract_main (
        some (record {
          exists = true;
          is_regular_file = true;
          content = some buffer;
          writable = true;
        })) in
      ((blob : Bytes) × FirstBlob buffer blob × (run ≡ (exited (pos 0), some blob)))
      ⊎ (NoBlob buffer × (run ≡ (exited (negsuc 2), none)))
extract_main_cases buffer = let (r, found, x) = extract-Explains buffer in outcome buffer r found x
