-- ===== src/Common/Lines.antt =====
-- The loop `getline(cin, line); if (!cin) break;` of src/urlparse.cpp and src/upper_sanitize.cpp.
use mathlib.Core.List.{List, [], ◌∷◌, ◌++◌}
use mathlib.Core.Path.{◌≡◌, refl, ap, ◌∙◌}
use mathlib.Core.Logic.{◌≢◌}
use mathlib.Core.List.{append-nil, append_assoc}
use native.Mathlib.Omega.{arith}
use tjtools.Common.Bools.{◌==◌, if◌then◌else◌}
use tjtools.Common.Lists.{Bytes, All}

-- The end of the input: a line counts without its newline, unless nothing was read of it.
abbrev pub unfinished : Bytes → List Bytes
unfinished [] = []
unfinished (x ∷ line) = (x ∷ line) ∷ []

-- The lines that getline delivers, with what was read of the current one.
unfoldable pub lines_from : Bytes → Bytes → List Bytes
lines_from line [] = unfinished line
lines_from line (c ∷ rest) =
    let next = lines_from [] rest in
    let more = lines_from (line ++ c ∷ []) rest in if c == b'\n' then line ∷ next else more

unfoldable pub lines : Bytes → List Bytes
unfolding lines_from
lines = lines_from []

-- `cout << line_out << endl` for each of the lines.
unfoldable pub print_lines : List Bytes → Bytes
print_lines [] = []
print_lines (line ∷ rest) = line ++ b'\n' ∷ print_lines rest

abbrev pub IsLine : Bytes → Type 0
IsLine = All (λ c. c ≢ b'\n')

lines_from-IsLine :
    (read line rest : Bytes)
    → IsLine line
    → lines_from read (line ++ b'\n' ∷ rest) ≡ (read ++ line) ∷ lines_from [] rest
unfolding lines_from
lines_from-IsLine read [] rest h = rw append-nil
lines_from-IsLine read (c ∷ line) rest h =
    ground (
      arith,
      h.0,
      lines_from-IsLine (read ++ c ∷ []) line rest h.1,
      append_assoc read (c ∷ []) line,
    )

lines_from_last :
    (read last : Bytes) → IsLine last → lines_from read last ≡ unfinished (read ++ last)
unfolding lines_from
lines_from_last read [] h = rw append-nil refl
lines_from_last read (c ∷ last) h =
    ground (arith, h.0, lines_from_last (read ++ c ∷ []) last h.1, append_assoc read (c ∷ []) last)

-- The lines of a text are those that end with a newline, and what is left behind them.
pub lines-unfinished :
    (ls : List Bytes) (last : Bytes)
    → All IsLine ls
    → IsLine last
    → lines (print_lines ls ++ last) ≡ ls ++ unfinished last
unfolding lines print_lines
lines-unfinished [] last h l = lines_from_last [] last l
lines-unfinished (line ∷ ls) last h l =
    ap (lines_from []) (append_assoc line (b'\n' ∷ print_lines ls) last)
    ∙ lines_from-IsLine [] line (print_lines ls ++ last) h.0
    ∙ ap (◌∷◌ line) (lines-unfinished ls last h.1 l)
