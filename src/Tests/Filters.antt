-- ===== src/Tests/Filters.antt =====
-- The filters src/urlparse.cpp and src/upper_sanitize.cpp on concrete inputs.
use tjtools.Common.{
  length, get_elem?, ◌⊎◌, ℕ, ◌≡◌, ◌<◌, ◌+◌, ◌*◌, ◌↔◌, refl, Bool, true, false, List, [], ◌∷◌, ◌++◌,
  map, some, none, Bytes, codes, arith, ◌==◌,
}
use tjtools.Common.Lines.{print_lines}
use tjtools.UrlParse.{digit_value, parse, decode_line, url_main}
use tjtools.UrlParse.Decoding.{Decodes, decode_line_iff}
use tjtools.UrlParse.RoundTrip.{AllDecode, url_main-Decodes}
use tjtools.UpperSanitize.{sanitize, sanitize_main}
use tjtools.UpperSanitize.Letters.{Keeps, sanitize_letters}

decode_title : url_main (codes "a%20b%zz%2\n%41") ≡ codes "a bzz2\nA\n"
unfolding url_main print_lines tjtools.Common.Lines.lines parse tjtools.UrlParse.is_valid
decode_title = refl

sanitize_title : sanitize_main (codes "ABC THE WORLD\n") ≡ codes "Abc The World\n"
unfolding sanitize_main print_lines tjtools.Common.Lines.lines
sanitize_title = refl

abbrev is_space : ℕ → Bool
is_space c = c == b' '

abbrev is_newline : ℕ → Bool
is_newline c = c == b'\n'

decode_line_iff_example :
    Decodes (codes "a%2Fb%") (codes "a/b") ↔ (decode_line (codes "a%2Fb%") ≡ codes "a/b")
decode_line_iff_example = decode_line_iff (codes "a%2Fb%") (codes "a/b")

-- A line with an escape and a broken one, an empty one, and a last one without its newline.
abbrev escaped : List Bytes
escaped = codes "a%2Fb" ∷ [] ∷ codes "c%" ∷ []

escaped-AllDecode : AllDecode escaped (codes "a/b" ∷ [] ∷ codes "c" ∷ [])
unfolding decode_line parse tjtools.UrlParse.is_valid
escaped-AllDecode = (
  (decode_line_iff (codes "a%2Fb") (codes "a/b")).1 refl,
  ((decode_line_iff [] []).1 refl, ((decode_line_iff (codes "c%") (codes "c")).1 refl, tt)),
)

url_main-Decodes_example :
    url_main (print_lines escaped ++ codes "d%4")
    ≡ print_lines ((codes "a/b" ∷ [] ∷ codes "c" ∷ []) ++ codes "d4" ∷ [])
unfolding decode_line parse tjtools.UrlParse.is_valid
url_main-Decodes_example =
    url_main-Decodes escaped (codes "a/b" ∷ [] ∷ codes "c" ∷ []) (codes "d%4") (codes "d4")
      (ground arith) (ground arith) escaped-AllDecode
      ((decode_line_iff (codes "d%4") (codes "d4")).1 refl)

-- The third letter of the first word.
sanitize_letters_example :
    (length (sanitize (codes "THE END")) ≡ 7)
    × ((Keeps (codes "TH") × (get_elem? (sanitize (codes "THE END")) 2 ≡ some b'E'))
        ⊎ ((¬ Keeps (codes "TH")) × (get_elem? (sanitize (codes "THE END")) 2 ≡ some b'e')))
sanitize_letters_example = sanitize_letters (codes "TH") (codes " END") b'E'
