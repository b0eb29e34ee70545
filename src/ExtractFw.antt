-- ===== src/ExtractFw.antt =====
-- src/extract_bmi260_fw.cpp: the search for the firmware blob in the bytes of a file. The words of
-- the patterns lie in memory with their low byte first.
pub mod Search
pub mod Blob
pub mod Program
pub mod Outcome
use tjtools.Common.{
  ℕ, zero, suc, ◌*◌, ◌/◌, ◌%◌, Bool, true, false, ◌&&◌, not, List, [], ◌∷◌, ◌++◌, Option, none,
  some, Bytes, ltb, ◌==◌, if◌then◌else◌, length, take, drop, equal,
}
use tjtools.Common.Result.{Result, ok, err}

pub record Sequence : Type 0 where
  pub offset : ℕ
  pub words : List ℕ

abbrev pub words_bytes : List ℕ → Bytes
words_bytes [] = []
words_bytes (w ∷ words) = w % 256 ∷ w / 256 ∷ words_bytes words

abbrev pub blob_size : ℕ
blob_size = 8192

abbrev pub header_size : ℕ
header_size = 96

abbrev pub ident0 : List ℕ
ident0 = 0x2ec8 ∷ 0x2e00 ∷ 0x2e80 ∷ []

abbrev pub ident1 : List ℕ
ident1 = 0x3050 ∷ 0x2e21 ∷ 0xf559 ∷ 0x3010 ∷ 0x2e21 ∷ []

abbrev pub padding : List ℕ
padding = 0x2e80 ∷ 0xc100 ∷ []

abbrev sequence : ℕ → List ℕ → Sequence
sequence offset words = record { offset = offset; words = words }

abbrev pub header_sequences : List Sequence
header_sequences =
    sequence 0x00 ident0
    ∷ sequence 0x08 (0x2ec8 ∷ [])
    ∷ sequence 0x0a (0x2e00 ∷ [])
    ∷ sequence 0x10 (0x2e80 ∷ [])
    ∷ sequence 0x18 (0x2ec8 ∷ [])
    ∷ sequence 0x1c (0x2e80 ∷ [])
    ∷ sequence 0x20 ident1
    ∷ sequence 0x44 padding
    ∷ sequence 0x48 padding
    ∷ sequence 0x4c padding
    ∷ sequence 0x50 padding
    ∷ sequence 0x54 padding
    ∷ sequence 0x58 padding
    ∷ sequence 0x5c padding
    ∷ []

-- memcmp of each sequence with the bytes at its offset.
unfoldable pub check : Bytes → List Sequence → Bool
check buf [] = true
check buf (s ∷ hdr) =
    let same = equal (take (2 * length s.words) (drop s.offset buf)) (words_bytes s.words) in
    let rest = check buf hdr in if not same then false else rest

unfoldable pub has_prefix : Bytes → Bytes → Bool
has_prefix [] text = true
has_prefix (_ ∷ _) [] = false
has_prefix (p ∷ pattern') (b ∷ text) = p == b && has_prefix pattern' text

-- memmem: the bytes from the first place of the pattern on; none at all stand for `last`.
unfoldable pub locate : List ℕ → Bytes → Bytes
locate words [] = []
locate words (b ∷ rest) =
    let later = locate words rest in
    if has_prefix (words_bytes words) (b ∷ rest) then b ∷ rest else later

pub data ExtractError : Type 0 where
  blob_not_found no_space_left : ExtractError

abbrev pub behind : Bytes → Bytes
behind [] = []
behind (_ ∷ rest) = rest

-- The body of the loop at a place of the identifier: `none` goes on to the next place.
unfoldable pub judge : Bytes → Option (Result ExtractError Bytes)
judge it =
    if ltb (length it) blob_size
    then some (err no_space_left)
    else if check (take header_size it) header_sequences
    then some (ok (take blob_size it))
    else none

abbrev pub or_later :
    Option (Result ExtractError Bytes)
    → Option (Result ExtractError Bytes)
    → Option (Result ExtractError Bytes)
or_later (some r) later = some r
or_later none later = later

-- The loop, with a bound on its rounds: `none` is reached only if there are more.
unfoldable pub extract_from : ℕ → Bytes → Option (Result ExtractError Bytes)
extract_from zero first = none
extract_from (suc fuel) first =
    let it = locate ident0 first in
    let next = extract_from fuel (behind it) in
    if length it == 0 then some (err blob_not_found) else or_later (judge it) next

-- ExtractBMI260FW, from the bytes of the input file to those of the output file.
unfoldable pub extract : Bytes → Option (Result ExtractError Bytes)
extract buffer = extract_from (suc (length buffer)) buffer
