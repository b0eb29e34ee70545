-- ===== src/UrlParse.antt =====
-- src/urlparse.cpp: undoes percent-encoding, line by line.
pub mod Decoding
pub mod RoundTrip
use tjtools.Common.{
  ℕ, zero, suc, ◌+◌, ◌-◌, ◌*◌, Bool, ◌&&◌, ◌||◌, List, [], ◌∷◌, ◌++◌, map, Option, none, some,
  Bytes, ltb, leb, ◌==◌, if◌then◌else◌, not,
}
use tjtools.Common.Lines.{lines, print_lines}

-- A decimal digit or an upper-case hexadecimal one.
unfoldable pub is_valid : ℕ → Bool
is_valid c = (leb b'0' c && leb c b'9') || (leb b'A' c && leb c b'F')

-- `decoder << hex << encoded; decoder >> k`, on valid digits.
abbrev pub digit_value : ℕ → ℕ
digit_value c = if leb c b'9' then c - b'0' else c - b'A' + 10

unfoldable pub decode : ℕ → Bytes → ℕ
decode k [] = k
decode k (c ∷ encoded) = decode (k * 16 + digit_value c) encoded

-- The loop that collects `n` digits behind the position.
unfoldable pub collect : ℕ → Bytes → Bytes → Option Bytes
collect zero encoded p = some encoded
collect (suc n) encoded [] = none
collect (suc n) encoded (c ∷ p) =
    let rest = collect n (encoded ++ c ∷ []) p in if not (is_valid c) then none else rest

abbrev check_byte : ℕ → Option ℕ
check_byte k = if leb 256 k then none else some k

-- At a percent sign, with what follows it. `none` is the return value true, and the position stays
-- at the sign; otherwise it moves on by the two digits.
unfoldable pub parse : Bytes → Option ℕ
unfolding collect decode
parse behind = elim (collect 2 [] behind) [
  | none ↦ none
  | some encoded ↦ check_byte (decode 0 encoded)
]

-- The loop over a line. `skip` counts the characters that `parse` has moved the position past.
unfoldable pub decode_from : ℕ → Bytes → Bytes → Bytes
decode_from skip line_out [] = line_out
decode_from (suc skip) line_out (_ ∷ rest) = decode_from skip line_out rest
decode_from zero line_out (c ∷ rest) =
    let plain = decode_from 0 (line_out ++ c ∷ []) rest in
    let dropped = decode_from 0 line_out rest in
    let decoded = λ (k : ℕ). decode_from 2 (line_out ++ k ∷ []) rest in
    if not (c == b'%') then plain else elim (parse rest) [ none ↦ dropped | some k ↦ decoded k ]

unfoldable pub decode_line : Bytes → Bytes
unfolding decode_from
decode_line line = decode_from 0 [] line

-- main, from the standard input to the standard output.
unfoldable pub url_main : Bytes → Bytes
unfolding decode_line
url_main input = print_lines (map decode_line (lines input))
