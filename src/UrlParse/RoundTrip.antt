-- ===== src/UrlParse/RoundTrip.antt =====
-- Percent-encoding, and its decoding by the program.
use tjtools.Common.{
  ◌++◌, ℕ, ◌+◌, ◌-◌, ◌/◌, ◌%◌, ◌<◌, ◌≡◌, ◌≢◌, refl, ap, ◌∙◌, Bool, true, ◌||◌, inl, inr, List, [],
  ◌∷◌, map, Bytes, ltb, ◌==◌, if◌then◌else◌, All, IsByte, arith, Bool-cases,
}
use mathlib.Core.List.{map-append}
use mathlib.Core.Path.{ap₂}
use tjtools.Common.Lines.{print_lines, IsLine, unfinished, lines-unfinished}
use tjtools.UrlParse.{is_valid, digit_value, decode_line, url_main}
use tjtools.UrlParse.Decoding.{
  Decodes, decode_line_iff, decode_line_nil, decode_line_plain, decode_line_escape,
}

abbrev pub hex_digit : ℕ → ℕ
hex_digit d = if ltb d 10 then b'0' + d else b'A' + d - 10

-- An encoder that escapes the percent sign, and whatever else it is told to.
abbrev pub encode_byte : (ℕ → Bool) → ℕ → Bytes → Bytes
encode_byte chosen b rest =
    if b == b'%' || chosen b
    then b'%' ∷ hex_digit (b / 16) ∷ hex_digit (b % 16) ∷ rest
    else b ∷ rest

abbrev pub encode : (ℕ → Bool) → Bytes → Bytes
encode chosen [] = []
encode chosen (b ∷ bytes) = encode_byte chosen b (encode chosen bytes)

hex_digit_valid :
    (d : ℕ)
    → d < 16
    → (is_valid (hex_digit d) ≡ true) × (digit_value (hex_digit d) ≡ d) × (hex_digit d ≢ b'\n')
unfolding is_valid
hex_digit_valid d h = (ground arith, ground arith, ground arith)

decode_line-encode_byte :
    (chosen : ℕ → Bool) (b : ℕ) (rest : Bytes)
    → IsByte b
    → decode_line (encode_byte chosen b rest) ≡ b ∷ decode_line rest
decode_line-encode_byte chosen b rest h = elim (Bool-cases (b == b'%' || chosen b)) [
  | inl e ↦
      let high = hex_digit_valid (b / 16) (omega arith) in
      let low = hex_digit_valid (b % 16) (omega arith) in
      rw e (
        decode_line_escape rest _ _ (high.0, low.0)
        ∙ ap (λ k. k ∷ decode_line rest) (omega (arith, high.1, low.1)))
  | inr e ↦ rw e (decode_line_plain rest b (ground arith))
]

-- Whatever an encoder escapes, the decoder gives every text of bytes back.
decode_line-encode :
    (chosen : ℕ → Bool) (bytes : Bytes)
    → All IsByte bytes
    → decode_line (encode chosen bytes) ≡ bytes
decode_line-encode chosen [] h = decode_line_nil []
decode_line-encode chosen (b ∷ bytes) h =
    decode_line-encode_byte chosen b (encode chosen bytes) h.0
    ∙ ap (◌∷◌ b) (decode_line-encode chosen bytes h.1)

-- Each line decodes to the text beside it.
abbrev pub AllDecode : List Bytes → List Bytes → Type 0
AllDecode [] [] = Unit
AllDecode (line ∷ ls) (out ∷ outs) = Decodes line out × AllDecode ls outs
AllDecode _ _ = ⊥

AllDecode-decode_line : (ls outs : List Bytes) → AllDecode ls outs → map decode_line ls ≡ outs
AllDecode-decode_line [] [] d = refl
AllDecode-decode_line [] (out ∷ outs) d = absurd d
AllDecode-decode_line (line ∷ ls) [] d = absurd d
AllDecode-decode_line (line ∷ ls) (out ∷ outs) d =
    ap₂ ◌∷◌ ((decode_line_iff line out).0 d.0) (AllDecode-decode_line ls outs d.1)

-- What is printed for a last line that has no newline: nothing, if there is nothing of it.
abbrev pub last_out : Bytes → Bytes → List Bytes
last_out [] out = []
last_out (_ ∷ _) out = out ∷ []

last_lines :
    (last out : Bytes) → Decodes last out → map decode_line (unfinished last) ≡ last_out last out
last_lines [] out d = refl
last_lines (c ∷ last) out d = ap (λ o. o ∷ []) ((decode_line_iff (c ∷ last) out).0 d)

-- The whole program on an input of lines that end with a newline each, and a last one that does not
-- and may be empty: if each line decodes to a text, the program prints just these texts in
-- this order, each with a newline; for an empty last line it prints nothing.
pub url_main-Decodes :
    (ls outs : List Bytes) (last out : Bytes)
    → All IsLine ls
    → IsLine last
    → AllDecode ls outs
    → Decodes last out
    → url_main (print_lines ls ++ last) ≡ print_lines (outs ++ last_out last out)
unfolding url_main
url_main-Decodes ls outs last out lines' line d e = rw (lines-unfinished ls last lines' line) (
    ap print_lines (
      map-append decode_line ls (unfinished last)
      ∙ ap₂ ◌++◌ (AllDecode-decode_line ls outs d) (last_lines last out e)))
