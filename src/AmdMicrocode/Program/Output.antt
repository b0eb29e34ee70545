-- ===== src/AmdMicrocode/Program/Output.antt =====
-- The output of src/amd_microcode.cpp for a well-formed container.
use tjtools.Common.{
  codes, IsByte, suc, ◌<◌, ◌^◌, ◌≡◌, refl, sym, ap, ◌∙◌, true, List, [], ◌∷◌, ◌++◌, some, Bytes,
  map, All, length,
}
use mathlib.Core.List.{append_assoc}
use tjtools.Common.Result.{ok}
use tjtools.AmdMicrocode.{finished, microcode_main}
use tjtools.AmdMicrocode.RoundTrip.{Patch, IsPatch, container, report, microcode_main-container}
use tjtools.Text.{to_hex}
use tjtools.AmdMicrocode.Program.Digest.{rows_text, digest_text-rows_text}
use tjtools.AmdMicrocode.Program.{
  Evp, print_sha256, report_text, ended, print_reports, MicrocodeFile, program,
}

-- OpenSSL computes a digest of 32 bytes for each payload.
pub record IsDigest (evp : Evp) (sha256 : Bytes → Bytes) : Type 0 where
  pub new : evp.new ≡ true
  pub init : evp.init ≡ true
  pub update : (payload : Bytes) → evp.update payload ≡ true
  pub final : (payload : Bytes) → evp.final payload ≡ some (sha256 payload)
  pub reset : evp.reset ≡ true
  pub size : (payload : Bytes) → length (sha256 payload) ≡ 32
  pub bytes : (payload : Bytes) → All IsByte (sha256 payload)

-- What is to be printed of a patch: the CPU and the id in hexadecimal, and the lines of the digest.
abbrev pub patch_text : (Bytes → Bytes) → Patch → Bytes
patch_text sha256 p =
    let fields =
      codes "installed_cpu=0x"
      ++ (to_hex p.cpu ++ (codes "\npatch_id=0x" ++ (to_hex (report p).patch_id ++ codes "\n"))) in
    fields ++ (codes "digest={" ++ (rows_text (sha256 p.payload) ++ codes "}\n"))

abbrev pub patches_text : (Bytes → Bytes) → List Patch → Bytes
patches_text sha256 [] = []
patches_text sha256 (p ∷ ps) = patch_text sha256 p ++ patches_text sha256 ps

print_sha256-rows_text :
    (evp : Evp) (sha256 : Bytes → Bytes) (payload : Bytes)
    → IsDigest evp sha256
    → print_sha256 evp payload
      ≡ ok (codes "digest={" ++ (rows_text (sha256 payload) ++ codes "}\n"))
unfolding print_sha256
print_sha256-rows_text evp sha256 payload d =
    simp (d.new, d.init, d.update payload, d.final payload, d.reset)
      (ap ok (digest_text-rows_text (sha256 payload) (d.size payload) (d.bytes payload)))

print_reports-patches_text :
    (evp : Evp) (sha256 : Bytes → Bytes) (ps : List Patch)
    → IsDigest evp sha256
    → print_reports evp (map report ps, finished) ≡ (patches_text sha256 ps, ended finished)
unfolding print_reports
print_reports-patches_text evp sha256 [] d = refl
print_reports-patches_text evp sha256 (p ∷ ps) d =
    rw (print_sha256-rows_text evp sha256 p.payload d) (
      rw (print_reports-patches_text evp sha256 ps d)
        (ap (λ t. (t, ended finished)) (sym (append_assoc (report_text (report p)) _ _))))

-- For a file that can be mapped and holds a well-formed container of less than 2 ^ 28 - 1 patches, and
-- with an OpenSSL that works, the program prints for each patch, in their order, the CPU and the id as
-- they stand in the file, in hexadecimal, and the digest of the payload, as four lines of eight bytes, and
-- ends without an error.
pub program-container :
    (evp : Evp) (sha256 : Bytes → Bytes) (file : MicrocodeFile) (ps : List Patch)
    → IsDigest evp sha256
    → file.opens ≡ true
    → file.fstat ≡ true
    → file.mmap ≡ true
    → file.content ≡ container ps
    → All IsPatch ps
    → suc (length ps) < 2 ^ 28
    → program evp (some file) ≡ (patches_text sha256 ps, ended finished)
unfolding program
program-container evp sha256 file ps d o f m c h b =
    simp (o, f, m)
      (ap (λ x. print_reports evp (microcode_main x)) c
        ∙ ap (print_reports evp) (microcode_main-container ps h b)
        ∙ print_reports-patches_text evp sha256 ps d)
