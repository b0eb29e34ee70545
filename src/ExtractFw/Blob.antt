-- ===== src/ExtractFw/Blob.antt =====
-- Which blob is written, and when there is none.
use tjtools.Common.{
  ltb→lt, ltb-le, ℕ, ◌≤◌, ◌<◌, ◌≡◌, refl, true, false, [], ◌∷◌, Option, none, some, Bytes, ltb,
  length, take, inl, inr, Bool-cases, arith,
}
use tjtools.Common.Result.{Result, ok, err}
use tjtools.ExtractFw.{words_bytes, blob_size, ident0, has_prefix, ExtractError, extract, judge}
use tjtools.ExtractFw.Search.{is_header, scan, scan_hit, scan_miss, or_scan, extract-scan}

-- The header stands here, and a whole blob with it.
abbrev pub IsBlob : Bytes → Type 0
IsBlob bytes =
    (has_prefix (words_bytes ident0) bytes ≡ true)
    × (is_header bytes ≡ true)
    × (blob_size ≤ length bytes)

-- No place in the bytes before `n` holds one.
abbrev pub NoBlob : Bytes → Type 0
NoBlob [] = Unit
NoBlob (b ∷ rest) = ¬ IsBlob (b ∷ rest) × NoBlob rest

NoBlob-short : (bytes : Bytes) → length bytes < blob_size → NoBlob bytes
NoBlob-short [] h = tt
NoBlob-short (b ∷ rest) h = (λ blob. omega (arith, blob.2), NoBlob-short rest (omega arith))

-- The blob at the first place that holds one.
pub data FirstBlob : Bytes → Bytes → Type 0 where
  here : {bytes blob : Bytes} → IsBlob bytes → blob ≡ take blob_size bytes → FirstBlob bytes blob
  later :
      {b : ℕ} {rest blob : Bytes}
      → ¬ IsBlob (b ∷ rest)
      → FirstBlob rest blob
      → FirstBlob (b ∷ rest) blob

-- What a result says of the file.
abbrev pub Explains : Bytes → Result ExtractError Bytes → Type 0
Explains buffer (err _) = NoBlob buffer
Explains buffer (ok blob) = FirstBlob buffer blob

abbrev Judges : Bytes → Option (Result ExtractError Bytes) → Type 0
Judges bytes none = is_header bytes ≡ false
Judges bytes (some (err _)) = length bytes < blob_size
Judges bytes (some (ok blob)) =
    (is_header bytes ≡ true) × (blob_size ≤ length bytes) × (blob ≡ take blob_size bytes)

judge-Judges : (bytes : Bytes) → Judges bytes (judge bytes)
unfolding judge
judge-Judges bytes = elim (Bool-cases (ltb (length bytes) blob_size)) [
  | inl short ↦ rw short (ltb→lt _ _ short)
  | inr enough ↦ rw enough (elim (Bool-cases (is_header bytes)) [
    | inl h ↦ rw h (h, omega (arith, ltb-le _ _ enough), refl)
    | inr h ↦ rw h h
  ])
]

Explains-cons :
    (b : ℕ) (rest : Bytes) (r : Result ExtractError Bytes)
    → ¬ IsBlob (b ∷ rest)
    → Explains rest r
    → Explains (b ∷ rest) r
Explains-cons b rest (err _) n e = (n, e)
Explains-cons b rest (ok blob) n e = later n e

or_scan-Explains :
    (b : ℕ) (rest : Bytes) (j : Option (Result ExtractError Bytes)) (r : Result ExtractError Bytes)
    → has_prefix (words_bytes ident0) (b ∷ rest) ≡ true
    → Judges (b ∷ rest) j
    → Explains rest r
    → Explains (b ∷ rest) (or_scan j r)
or_scan-Explains b rest none r hit j e = Explains-cons b rest r (λ blob. cc) e
or_scan-Explains b rest (some (err _)) r hit j e = NoBlob-short (b ∷ rest) j
or_scan-Explains b rest (some (ok blob)) r hit j e = here (hit, j.0, j.1) j.2

scan-Explains : (buffer : Bytes) → Explains buffer (scan buffer)
scan-Explains [] = unfold scan in tt
scan-Explains (b ∷ rest) = elim (Bool-cases (has_prefix (words_bytes ident0) (b ∷ rest))) [
  | inl hit ↦ rw (scan_hit b rest hit) (
      or_scan-Explains b rest (judge (b ∷ rest)) (scan rest) hit (judge-Judges (b ∷ rest))
        (scan-Explains rest))
  | inr miss ↦
      rw (scan_miss b rest miss)
        (Explains-cons b rest (scan rest) (λ blob. cc) (scan-Explains rest))
]

-- The search gives the 8192 bytes from the first place on where the header stands with as many
-- bytes behind it, and fails only if the file has no such place.
pub extract-Explains :
    (buffer : Bytes)
    → (r : Result ExtractError Bytes) × (extract buffer ≡ some r) × Explains buffer r
extract-Explains buffer = (scan buffer, extract-scan buffer, scan-Explains buffer)
