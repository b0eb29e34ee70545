-- ===== src/ExtractFw/Search.antt =====
-- The loop against a plain scan of the file, place by place.
use tjtools.Common.{
  ℕ, zero, suc, ◌<◌, ◌≡◌, refl, sym, ap, ◌∙◌, Bool, true, false, [], ◌∷◌, Option, none, some, Bytes,
  ◌==◌, if◌then◌else◌, length, take, inl, inr, Bool-cases, arith, not,
}
use tjtools.Common.Result.{Result, err}
use tjtools.ExtractFw.{
  judge, or_later, words_bytes, header_size, ident0, header_sequences, check, has_prefix, locate,
  ExtractError, blob_not_found, extract_from, extract,
}

-- A place where the header stands.
abbrev pub is_header : Bytes → Bool
is_header bytes = check (take header_size bytes) header_sequences

abbrev pub or_scan :
    Option (Result ExtractError Bytes) → Result ExtractError Bytes → Result ExtractError Bytes
or_scan (some r) later = r
or_scan none later = later

or_later-some :
    (r : Option (Result ExtractError Bytes)) (later : Result ExtractError Bytes)
    → or_later r (some later) ≡ some (or_scan r later)
or_later-some (some r) later = refl
or_later-some none later = refl

-- The reference: the first place with the identifier that decides.
unfoldable pub scan : Bytes → Result ExtractError Bytes
scan [] = err blob_not_found
scan (b ∷ rest) =
    let later = scan rest in
    if not (has_prefix (words_bytes ident0) (b ∷ rest))
    then later
    else or_scan (judge (b ∷ rest)) later

module _ (b : ℕ) (rest : Bytes) where
  abbrev pub IsPlace : Bool → Type 0
  IsPlace hit = has_prefix (words_bytes ident0) (b ∷ rest) ≡ hit

  locate_hit : IsPlace true → locate ident0 (b ∷ rest) ≡ b ∷ rest
  unfolding locate
  locate_hit h = rw h

  locate_miss : IsPlace false → locate ident0 (b ∷ rest) ≡ locate ident0 rest
  unfolding locate
  locate_miss h = rw h

  round_miss :
      (fuel : ℕ) → IsPlace false → extract_from (suc fuel) (b ∷ rest) ≡ extract_from (suc fuel) rest
  unfolding extract_from
  round_miss fuel h = rw (locate_miss h)

  pub scan_miss : IsPlace false → scan (b ∷ rest) ≡ scan rest
  unfolding scan
  scan_miss h = rw h

  pub scan_hit : IsPlace true → scan (b ∷ rest) ≡ or_scan (judge (b ∷ rest)) (scan rest)
  unfolding scan
  scan_hit h = rw h

  round_hit :
      (fuel : ℕ)
      → IsPlace true
      → extract_from fuel rest ≡ some (scan rest)
      → extract_from (suc fuel) (b ∷ rest) ≡ some (scan (b ∷ rest))
  unfolding extract_from scan
  round_hit fuel h ih =
      let filled : (length (b ∷ rest) == 0) ≡ false = ground arith in
      rw (locate_hit h) (rw h (rw filled (rw ih (or_later-some (judge (b ∷ rest)) (scan rest)))))

extract_from-scan :
    (first : Bytes) (fuel : ℕ) → length first < fuel → extract_from fuel first ≡ some (scan first)
extract_from-scan first zero h = absurd (omega arith)
extract_from-scan [] (suc fuel) h = unfold extract_from locate scan in refl
extract_from-scan (b ∷ rest) (suc fuel) h =
    elim (Bool-cases (has_prefix (words_bytes ident0) (b ∷ rest))) [
      | inl hit ↦ round_hit b rest fuel hit (extract_from-scan rest fuel (omega arith))
      | inr miss ↦
          round_miss b rest fuel miss
          ∙ extract_from-scan rest (suc fuel) (omega arith)
          ∙ ap some (sym (scan_miss b rest miss))
    ]

-- The loop ends for every file, within as many rounds as the file has bytes and one, and gives
-- what the plain scan gives.
pub extract-scan : (buffer : Bytes) → extract buffer ≡ some (scan buffer)
unfolding extract
extract-scan buffer = extract_from-scan buffer (suc (length buffer)) (omega arith)
