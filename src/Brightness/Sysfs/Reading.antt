-- ===== src/Brightness/Sysfs/Reading.antt =====
-- rstrip, and what read_sysfs makes of a file.
use mathlib.Core.List.{reverse, reverse-cons, reverse-append, reverse-reverse}
use tjtools.Common.{
  ℕ, ◌≡◌, refl, sym, ap, ◌∙◌, true, false, [], ◌∷◌, ◌++◌, some, Bytes, ◌⊎◌, inl, inr, All,
  All-append, subst, ◌≢◌, Bool-cases, arith,
}
use tjtools.Text.{isspace, word, extract, skip_spaces}
use tjtools.Brightness.Sysfs.{
  Files, Outcome, defined, undefined, strip_read, map_outcome, skip_reversed, rstrip, read_sysfs,
}

abbrev pub IsSpace : ℕ → Type 0
IsSpace c = isspace c ≡ true

-- A text that does not end in white space.
abbrev pub IsStripped : Bytes → Type 0
IsStripped text = (front : Bytes) × (c : ℕ) × (text ≡ front ++ c ∷ []) × (isspace c ≡ false)

-- What the loop finds, in the reversed text.
abbrev Skips : Bytes → Outcome Bytes → Type 0
Skips text undefined = All IsSpace text
Skips text (defined rest) =
    (white : Bytes) × All IsSpace white
    × (text ≡ white ++ rest)
    × (c : ℕ) × (tail : Bytes) × (rest ≡ c ∷ tail)
    × (isspace c ≡ false)

Skips-cons :
    (c : ℕ) (text : Bytes) (o : Outcome Bytes) → IsSpace c → Skips text o → Skips (c ∷ text) o
Skips-cons c text undefined e h = (e, h)
Skips-cons c text (defined rest) e (white, w, split, d, tail, same, solid) =
    (c ∷ white, (e, w), ap (◌∷◌ c) split, d, tail, same, solid)

skip_reversed-Skips : (text : Bytes) → Skips text (skip_reversed text)
unfolding skip_reversed
skip_reversed-Skips [] = tt
skip_reversed-Skips (c ∷ rest) = elim (Bool-cases (isspace c)) [
  | inl e ↦ rw e (Skips-cons c rest (skip_reversed rest) e (skip_reversed-Skips rest))
  | inr e ↦ rw e ([], tt, refl, c, rest, refl, e)
]

All-reverse {κ} : (P : ℕ → Type κ) (xs : Bytes) → All P xs → All P (reverse xs)
All-reverse P [] h = tt
All-reverse P (x ∷ xs) h =
    rw (reverse-cons x xs) (All-append P (reverse xs) (x ∷ []) (All-reverse P xs h.1) (h.0, tt))

-- What rstrip has to give: the text without the white space at its end, unless there is nothing
-- else.
abbrev pub Strips : Bytes → Outcome Bytes → Type 0
Strips input undefined = All IsSpace input
Strips input (defined out) =
    (white : Bytes) × All IsSpace white × (input ≡ out ++ white) × IsStripped out

map-Strips :
    (input : Bytes) (o : Outcome Bytes)
    → Skips (reverse input) o
    → Strips input (map_outcome reverse o)
map-Strips input undefined h =
    subst (All IsSpace) (reverse-reverse input) (All-reverse IsSpace (reverse input) h)
map-Strips input (defined rest) (white, w, split, c, tail, e, solid) = (
  reverse white,
  All-reverse IsSpace white w,
  sym (reverse-reverse input) ∙ ap reverse split ∙ reverse-append white rest,
  (reverse tail, c, ap reverse e ∙ reverse-cons c tail, solid),
)

-- rstrip strips all the white space at the end and nothing else. Without a character that is not
-- white it reads before the text, and only then.
pub rstrip-Strips : (input : Bytes) → Strips input (rstrip input)
unfolding rstrip
rstrip-Strips input =
    map-Strips input (skip_reversed (reverse input)) (skip_reversed-Skips (reverse input))

abbrev IsSolid : ℕ → Type 0
IsSolid c = isspace c ≡ false

word-IsSolid : (text : Bytes) → All IsSolid (word text)
unfolding word
word-IsSolid [] = tt
word-IsSolid (c ∷ text) = ground (arith, word-IsSolid text)

skip_solid : (text : Bytes) → All IsSolid text → text ≢ [] → skip_reversed text ≡ defined text
unfolding skip_reversed
skip_solid [] h n = absurd (n refl)
skip_solid (c ∷ text) h n = rw (h.0, skip_reversed)

rstrip_solid : (text : Bytes) → All IsSolid text → text ≢ [] → rstrip text ≡ defined text
unfolding rstrip
rstrip_solid text h n =
    rw (skip_solid (reverse text) (All-reverse IsSolid text h) turned, reverse-reverse text)
  where
    turned : reverse text ≢ []
    turned e = n (sym (reverse-reverse text) ∙ ap reverse e)

skip_spaces_white : (text : Bytes) → All IsSpace text → skip_spaces text ≡ []
unfolding skip_spaces
skip_spaces_white [] h = refl
skip_spaces_white (c ∷ text) h = ground (arith, skip_spaces_white text h.1)

pub extract_white : (text : Bytes) → All IsSpace text → extract text ≡ []
unfolding extract word
extract_white text h = rw (skip_spaces_white text h)

extract-IsSolid : (text : Bytes) → All IsSolid (extract text)
unfolding extract
extract-IsSolid text = word-IsSolid (skip_spaces text)

skip_spaces_cases :
    (text : Bytes)
    → All IsSpace text
      ⊎ ((c : ℕ) × (rest : Bytes) × (skip_spaces text ≡ c ∷ rest) × (isspace c ≡ false))
unfolding skip_spaces
skip_spaces_cases [] = inl tt
skip_spaces_cases (c ∷ text) = elim (Bool-cases (isspace c)) [
  | inl white ↦ elim (skip_spaces_cases text) [
    | inl all ↦ inl (white, all)
    | inr (d, rest, e, solid) ↦ inr (d, rest, rw (white, skip_spaces) e, solid)
  ]
  | inr solid ↦ inr (c, text, rw solid, solid)
]

extract_solid :
    (text rest : Bytes) (c : ℕ)
    → skip_spaces text ≡ c ∷ rest
    → isspace c ≡ false
    → extract text ≢ []
unfolding extract word
extract_solid text rest c e solid = λ x. ground arith

-- A file that can be opened is read as its first word, if it has one; of a file of white space, or
-- an empty one, the reading is undefined.
pub read_sysfs_cases :
    (fs : Files) (path content : Bytes)
    → fs.read path ≡ some content
    → ((extract content ≢ []) × (read_sysfs fs path ≡ defined (some (extract content))))
      ⊎ (All IsSpace content × (read_sysfs fs path ≡ undefined))
unfolding read_sysfs
read_sysfs_cases fs path content e = elim (skip_spaces_cases content) [
  | inl w ↦
      inr
        (w, rw (e, strip_read) (rw (extract_white content w) (unfold rstrip skip_reversed in refl)))
  | inr (c, rest, s, solid) ↦
      let n = extract_solid content rest c s solid in
      inl (n, rw (e, strip_read) (rw (rstrip_solid (extract content) (extract-IsSolid content) n)))
]
