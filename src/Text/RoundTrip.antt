-- ===== src/Text/RoundTrip.antt =====
-- What std::to_string writes, `>>` and std::stoi read back.
use tjtools.Common.{
  ℕ, zero, suc, ◌+◌, ◌*◌, ◌/◌, ◌%◌, ◌^◌, ◌≤◌, ◌<◌, ◌≡◌, refl, ap, ◌∙◌, sym, subst, ◌-◌, [], ◌∷◌,
  some, inl, inr, Bytes, true, ltb, arith, Bool-cases, All,
}
use tjtools.Common.Int.{pos}
use tjtools.Text.{
  starts_with_digit, strip_prefix, digits_from, to_string, digit, scan_digits, skip_spaces, stoi,
  word, extract,
}

abbrev pub IsDecimal : ℕ → Type 0
IsDecimal c = (b'0' ≤ c) × (c ≤ b'9')

digit_ten : (d : ℕ) → d < 10 → digit 10 (b'0' + d) ≡ some d
unfolding digit
digit_ten d h = ground arith

scan_digits-cons :
    (acc d : ℕ) (rest : Bytes)
    → d < 10
    → scan_digits 10 acc ((b'0' + d) ∷ rest) ≡ scan_digits 10 (acc * 10 + d) rest
unfolding scan_digits
scan_digits-cons acc d rest h = rw (digit_ten d h, scan_digits)

scan_digits_nil : (n : ℕ) → scan_digits 10 n [] ≡ n
unfolding scan_digits
scan_digits_nil n = refl

scan_digits-digits_from :
    (fuel n : ℕ) (out : Bytes)
    → n < fuel
    → scan_digits 10 0 (digits_from fuel n out) ≡ scan_digits 10 n out
unfolding digits_from
scan_digits-digits_from zero n out h = absurd (omega arith)
scan_digits-digits_from (suc fuel) n out h = elim (Bool-cases (ltb n 10)) [
  | inl e ↦
      rw e (scan_digits-cons 0 n out (ground arith) ∙ ap (λ m. scan_digits 10 m out) (omega arith))
  | inr e ↦
      let tenth : n / 10 * 10 + n % 10 ≡ n = omega arith in
      rw e (
        scan_digits-digits_from fuel (n / 10) ((b'0' + n % 10) ∷ out) (ground arith)
        ∙ scan_digits-cons (n / 10) (n % 10) out (omega arith)
        ∙ ap (λ m. scan_digits 10 m out) tenth)
]

digits_from-IsDecimal :
    (fuel n : ℕ) (out : Bytes) → All IsDecimal out → All IsDecimal (digits_from fuel n out)
unfolding digits_from
digits_from-IsDecimal zero n out h = h
digits_from-IsDecimal (suc fuel) n out h =
    ground (arith, digits_from-IsDecimal fuel (n / 10) ((b'0' + n % 10) ∷ out))

digits_from_cons :
    (fuel n : ℕ) (out : Bytes)
    → n < fuel
    → (c : ℕ) × (rest : Bytes) × (digits_from fuel n out ≡ c ∷ rest)
unfolding digits_from
digits_from_cons zero n out h = absurd (omega arith)
digits_from_cons (suc fuel) n out h = elim (Bool-cases (ltb n 10)) [
  | inl e ↦ (b'0' + n, out, rw e)
  | inr e ↦ rw e (digits_from_cons fuel (n / 10) ((b'0' + n % 10) ∷ out) (ground arith))
]

word-IsDecimal : (text : Bytes) → All IsDecimal text → word text ≡ text
unfolding word
word-IsDecimal [] h = refl
word-IsDecimal (c ∷ text) h = ground (arith, word-IsDecimal text h.1)

skip_spaces-IsDecimal : (text : Bytes) → All IsDecimal text → skip_spaces text ≡ text
unfolding skip_spaces
skip_spaces-IsDecimal [] h = refl
skip_spaces-IsDecimal (c ∷ text) h = ground arith

pub to_string-IsDecimal : (n : ℕ) → All IsDecimal (to_string n)
unfolding to_string
to_string-IsDecimal n = digits_from-IsDecimal (suc n) n [] tt

-- A word of digits stays whole under `>>`.
pub extract-to_string : (n : ℕ) → extract (to_string n) ≡ to_string n
unfolding extract
extract-to_string n =
    ap word (skip_spaces-IsDecimal _ (to_string-IsDecimal n))
    ∙ word-IsDecimal _ (to_string-IsDecimal n)

strip_prefix_ten : (text : Bytes) → strip_prefix 10 text ≡ text
strip_prefix_ten [] = refl
strip_prefix_ten (z ∷ []) = refl
strip_prefix_ten (z ∷ x ∷ rest) = refl

digit_decimal : (c : ℕ) → IsDecimal c → digit 10 c ≡ some (c - b'0')
unfolding digit
digit_decimal c h = ground arith

stoi_decimal :
    (c : ℕ) (rest : Bytes)
    → All IsDecimal (c ∷ rest)
    → scan_digits 10 0 (c ∷ rest) < 2 ^ 31
    → stoi 10 (c ∷ rest) ≡ some (pos (scan_digits 10 0 (c ∷ rest)))
unfolding stoi
stoi_decimal c rest d h =
    rw (skip_spaces-IsDecimal (c ∷ rest) d)
      (ground (arith, strip_prefix_ten (c ∷ rest), digit_decimal c d.0))

pub scan_digits-to_string : (n : ℕ) → scan_digits 10 0 (to_string n) ≡ n
unfolding to_string
scan_digits-to_string n = scan_digits-digits_from (suc n) n [] (omega arith) ∙ scan_digits_nil n

pub to_string_cons : (n : ℕ) → (c : ℕ) × (rest : Bytes) × (to_string n ≡ c ∷ rest)
unfolding to_string
to_string_cons n = digits_from_cons (suc n) n [] (omega arith)

pub to_string-starts_with_digit : (n : ℕ) → starts_with_digit 10 (to_string n) ≡ true
to_string-starts_with_digit n =
    let (c, rest, e) = to_string_cons n in
    let decimal : All IsDecimal (c ∷ rest) = subst (All IsDecimal) e (to_string-IsDecimal n) in
    rw e (ground (arith, digit_decimal c decimal.0))

pub stoi-to_string : (n : ℕ) → n < 2 ^ 31 → stoi 10 (to_string n) ≡ some (pos n)
unfolding to_string
stoi-to_string n h =
    let (c, rest, e) = digits_from_cons (suc n) n [] (omega arith) in
    let value : scan_digits 10 0 (c ∷ rest) ≡ n =
      ap (scan_digits 10 0) (sym e)
      ∙ scan_digits-digits_from (suc n) n [] (omega arith)
      ∙ scan_digits_nil n in
    let decimal : All IsDecimal (c ∷ rest) = subst (All IsDecimal) e (to_string-IsDecimal n) in
    rw e (stoi_decimal c rest decimal (omega arith) ∙ ap (λ m. some (pos m)) value)
