-- ===== src/UpperSanitize.antt =====
-- src/upper_sanitize.cpp: lowers the capitals inside the words of a line, in the "C" locale.
pub mod Words
pub mod Letters
use tjtools.Common.{
  ℕ, ◌+◌, Bool, true, false, ◌&&◌, ◌||◌, List, [], ◌∷◌, ◌++◌, map, Bytes, leb, ◌==◌, if◌then◌else◌,
}
use tjtools.Common.Lines.{lines, print_lines}

abbrev pub isupper : ℕ → Bool
isupper c = leb b'A' c && leb c b'Z'

abbrev pub islower : ℕ → Bool
islower c = leb b'a' c && leb c b'z'

abbrev pub isalpha : ℕ → Bool
isalpha c = isupper c || islower c

abbrev pub tolower : ℕ → ℕ
tolower c = if isupper c then c + 32 else c

abbrev pub is_blank : ℕ → Bool
is_blank c = c == b' ' || c == b'\t'

pub record State : Type 0 where
  pub line_begin : Bool
  pub word_begin : Bool

-- One round of the loop: the new flags, and the character that is pushed.
unfoldable pub step : State → ℕ → State × ℕ
step s c =
    if s.line_begin
    then (record s { line_begin = false }, c)
    else if is_blank c
    then (record s { word_begin = true }, c)
    else if s.word_begin
    then (if isalpha c then record s { word_begin = false } else s, c)
    else if isupper c
    then (s, tolower c)
    else (s, c)

unfoldable pub sanitize_from : State → Bytes → Bytes
unfolding step
sanitize_from s [] = []
sanitize_from s (c ∷ rest) = let (s', c') = step s c in c' ∷ sanitize_from s' rest

abbrev pub at_line : State
at_line = record { line_begin = true; word_begin = false }

unfoldable pub sanitize : Bytes → Bytes
unfolding sanitize_from
sanitize line = sanitize_from at_line line

-- main, from the standard input to the standard output.
unfoldable pub sanitize_main : Bytes → Bytes
unfolding sanitize
sanitize_main input = print_lines (map sanitize (lines input))
