-- ===== src/Text.antt =====
-- The conversions of the standard library that the daemons use on the texts of sysfs nodes:
-- isspace, std::to_string, std::stoi and `stream >> word`, in the "C" locale, over bytes.
pub mod RoundTrip
use tjtools.Common.{
  ℕ, zero, suc, ◌+◌, ◌-◌, ◌*◌, ◌/◌, ◌%◌, ◌^◌, ◌≤◌, Bool, true, false, ◌&&◌, ◌||◌, not, List, [],
  ◌∷◌, ◌++◌, Option, none, some, Bytes, ltb, leb, ◌==◌, if◌then◌else◌,
}
use tjtools.Common.Int.{ℤ, pos, negsuc}

abbrev pub isspace : ℕ → Bool
isspace c = c == b' ' || (leb 9 c && leb c 13)

-- `out` holds the digits that follow.
unfoldable pub digits_from : ℕ → ℕ → Bytes → Bytes
digits_from zero n out = out
digits_from (suc fuel) n out =
    let rest = digits_from fuel (n / 10) ((b'0' + n % 10) ∷ out) in
    if ltb n 10 then (b'0' + n) ∷ out else rest

-- A number has fewer digits than its value plus two.
unfoldable pub to_string : ℕ → Bytes
unfolding digits_from
to_string n = digits_from (suc n) n []

abbrev pub hex_digit : ℕ → ℕ
hex_digit d = if ltb d 10 then b'0' + d else b'a' + d - 10

-- std::hex: `out` holds the digits that follow.
unfoldable pub hex_from : ℕ → ℕ → Bytes → Bytes
hex_from zero n out = out
hex_from (suc fuel) n out =
    let rest = hex_from fuel (n / 16) (hex_digit (n % 16) ∷ out) in
    if ltb n 16 then hex_digit n ∷ out else rest

unfoldable pub to_hex : ℕ → Bytes
to_hex n = hex_from (suc n) n []

unfoldable pub digit : ℕ → ℕ → Option ℕ
digit base c =
    let below = λ (d : ℕ). if ltb d base then some d else none in
    if leb b'0' c && leb c b'9'
    then below (c - b'0')
    else if leb b'a' c && leb c b'z'
    then below (c - b'a' + 10)
    else if leb b'A' c && leb c b'Z'
    then below (c - b'A' + 10)
    else none

-- The value of the digits up to the first character that is none.
unfoldable pub scan_digits : ℕ → ℕ → Bytes → ℕ
scan_digits base acc [] = acc
scan_digits base acc (c ∷ rest) = elim (digit base c) [
  | none ↦ acc
  | some d ↦ scan_digits base (acc * base + d) rest
]

unfoldable pub skip_spaces : Bytes → Bytes
skip_spaces [] = []
skip_spaces (c ∷ rest) = let later = skip_spaces rest in if isspace c then later else c ∷ rest

abbrev pub starts_with_digit : ℕ → Bytes → Bool
starts_with_digit base [] = false
starts_with_digit base (c ∷ rest) = elim (digit base c) [ none ↦ false | some _ ↦ true ]

-- The optional "0x" of base 16, if a digit follows.
abbrev pub strip_prefix : ℕ → Bytes → Bytes
strip_prefix base (z ∷ x ∷ rest) =
    if base == 16 && z == b'0' && (x == b'x' || x == b'X') && starts_with_digit 16 rest
    then rest
    else z ∷ x ∷ rest
strip_prefix base text = text

abbrev in_range : Bool → ℕ → Option ℤ
in_range false n = if ltb n (2 ^ 31) then some (pos n) else none
in_range true zero = some (pos 0)
in_range true (suc n) = if ltb n (2 ^ 31) then some (negsuc n) else none

abbrev unsigned_part : ℕ → Bool → Bytes → Option ℤ
unsigned_part base negative text =
    if starts_with_digit base text then in_range negative (scan_digits base 0 text) else none

abbrev signed_part : ℕ → Bytes → Option ℤ
signed_part base [] = none
signed_part base (c ∷ rest) =
    if c == b'-'
    then unsigned_part base true (strip_prefix base rest)
    else if c == b'+'
    then unsigned_part base false (strip_prefix base rest)
    else unsigned_part base false (strip_prefix base (c ∷ rest))

-- `none` is std::invalid_argument or std::out_of_range.
unfoldable pub stoi : ℕ → Bytes → Option ℤ
stoi base text = signed_part base (skip_spaces text)

unfoldable pub word : Bytes → Bytes
word [] = []
word (c ∷ rest) = let later = word rest in if isspace c then [] else c ∷ later

-- `stream >> text`: the next word, empty if there is none.
unfoldable pub extract : Bytes → Bytes
extract input = word (skip_spaces input)
