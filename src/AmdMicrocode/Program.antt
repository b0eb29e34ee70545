-- ===== src/AmdMicrocode/Program.antt =====
-- src/amd_microcode.cpp as a whole: the file that main maps, what it prints, and print_sha256. OpenSSL is a
-- parameter, and so are the answers of the kernel.
pub mod Output
pub mod Digest
use tjtools.Common.{
  ℕ, zero, suc, ◌+◌, ◌-◌, ◌%◌, ◌&&◌, Bool, true, false, not, List, [], ◌∷◌, ◌++◌, Option, none,
  some, Bytes, codes, ltb, ◌==◌, if◌then◌else◌, length, replicate,
}
use tjtools.Common.Result.{Result, ok, err, guard, or_throw, ◌>>=◌, ◌>>◌}
use tjtools.Text.{to_hex}
use tjtools.AmdMicrocode.{Report, microcode_main}
use tjtools.AmdMicrocode as Microcode

-- Which of the calls of libcrypto succeed, and the digest that the last gives.
pub record Evp : Type 0 where
  pub new : Bool
  pub init : Bool
  pub update : Bytes → Bool
  pub final : Bytes → Option Bytes
  pub reset : Bool

pub data DigestError : Type 0 where
  no_context init_failed update_failed final_failed reset_failed : DigestError

-- std::setw(2) and std::setfill('0')
abbrev pub pad : Bytes → Bytes
pad text = replicate (2 - length text) b'0' ++ text

abbrev pub separator : ℕ → Bytes
separator i = (if i == 0 then [] else b',' ∷ []) ++ (if i % 8 == 0 then b'\n' ∷ [] else [])

-- The bytes of the digest, from the index on.
unfoldable pub digest_items : ℕ → Bytes → Bytes
digest_items i [] = []
digest_items i (b ∷ digest) =
    separator i ++ (codes "0x" ++ (pad (to_hex b) ++ digest_items (i + 1) digest))

abbrev pub digest_text : Bytes → Bytes
digest_text digest = codes "digest={" ++ (digest_items 0 digest ++ codes "}\n")

-- What is printed, or the exception.
unfoldable pub print_sha256 : Evp → Bytes → Result DigestError Bytes
print_sha256 evp payload = do
  guard evp.new no_context
  guard evp.init init_failed
  guard (evp.update payload) update_failed
  digest ← or_throw (evp.final payload) final_failed
  guard evp.reset reset_failed
  ok (digest_text digest)

abbrev pub report_text : Report → Bytes
report_text r =
    codes "installed_cpu=0x"
    ++ (to_hex r.installed_cpu ++ (codes "\npatch_id=0x" ++ (to_hex r.patch_id ++ codes "\n")))

-- The exceptions in front of the mapped file, that of a digest, and the end of the run over the file.
-- `no_mapping` is a mapping that failed, which is read all the same.
pub data End : Type 0 where
  missing_argument open_failed fstat_failed no_mapping : End
  digest_failed : DigestError → End
  ended : Microcode.End → End

abbrev before : Bytes → Bytes × End → Bytes × End
before text (rest, end) = (text ++ rest, end)

abbrev printed : Result DigestError Bytes → Bytes × End → Bytes × End
printed (ok text) rest = before text rest
printed (err e) rest = ([], digest_failed e)

-- Each report is printed before the next patch is read.
unfoldable pub print_reports : Evp → List Report × Microcode.End → Bytes × End
print_reports evp ([], end) = ([], ended end)
print_reports evp (r ∷ reports, end) =
    before (report_text r) (printed (print_sha256 evp r.payload) (print_reports evp (reports, end)))

-- The file that is named: does it open, its content if fstat and mmap succeed.
pub record MicrocodeFile : Type 0 where
  pub opens : Bool
  pub fstat : Bool
  pub mmap : Bool
  pub content : Bytes

-- A file that is too short is refused before it is mapped.
abbrev mapped : Evp → MicrocodeFile → Bytes × End
mapped evp file =
    if not file.mmap && not (ltb (length file.content) 12)
    then ([], no_mapping)
    else print_reports evp (microcode_main file.content)

unfoldable pub program : Evp → Option MicrocodeFile → Bytes × End
program evp none = ([], missing_argument)
program evp (some file) =
    if not file.opens
    then ([], open_failed)
    else if not file.fstat
    then ([], fstat_failed)
    else mapped evp file
