-- ===== src/AmdMicrocode/Program/Digest.antt =====
-- The text of a digest that print_sha256 of src/amd_microcode.cpp prints.
use tjtools.Common.{
  length-take, length-drop, take-append-drop, ℕ, zero, suc, ◌+◌, ◌*◌, ◌/◌, ◌%◌, ◌≤◌, ◌<◌, ◌≡◌, refl,
  sym, ap, ◌∙◌, inl, inr, [], ◌∷◌, ◌++◌, Bytes, codes, ltb, All, length, take, drop, arith,
  Bool-cases, IsByte,
}
use mathlib.Core.Path.{ap₂}
use tjtools.Text.{hex_digit, hex_from, to_hex}
use tjtools.AmdMicrocode.Program.{pad, separator, digest_items, digest_text}

-- A byte by its two digits.
abbrev pub byte_text : ℕ → Bytes
byte_text b = b'0' ∷ b'x' ∷ hex_digit (b / 16) ∷ hex_digit (b % 16) ∷ []

abbrev following : Bytes → Bytes
following [] = []
following (b ∷ row) = b',' ∷ (byte_text b ++ following row)

-- A line of bytes, with commas between them.
abbrev pub row_text : Bytes → Bytes
row_text [] = []
row_text (b ∷ row) = byte_text b ++ following row

-- Further lines of eight bytes each.
abbrev pub lines_text : ℕ → Bytes → Bytes
lines_text zero digest = []
lines_text (suc n) digest =
    b',' ∷ b'\n' ∷ (row_text (take 8 digest) ++ lines_text n (drop 8 digest))

-- A digest of 32 bytes: four lines of eight, with a comma behind each but the last.
abbrev pub rows_text : Bytes → Bytes
rows_text digest = b'\n' ∷ (row_text (take 8 digest) ++ lines_text 3 (drop 8 digest))

hex_one : (fuel n : ℕ) (out : Bytes) → n < 16 → hex_from (suc fuel) n out ≡ hex_digit n ∷ out
unfolding hex_from
hex_one fuel n out h = ground arith

hex_more :
    (fuel n : ℕ) (out : Bytes)
    → 16 ≤ n
    → hex_from (suc fuel) n out ≡ hex_from fuel (n / 16) (hex_digit (n % 16) ∷ out)
unfolding hex_from
hex_more fuel n out h = ground arith

to_hex_small : (b : ℕ) → b < 16 → to_hex b ≡ hex_digit b ∷ []
unfolding to_hex
to_hex_small b h = hex_one b b [] h

to_hex_large : (b : ℕ) → 16 ≤ b → b < 256 → to_hex b ≡ hex_digit (b / 16) ∷ hex_digit (b % 16) ∷ []
unfolding to_hex
to_hex_large zero l h = absurd (omega (arith, l))
to_hex_large (suc b) l h =
    hex_more (suc b) (suc b) [] l ∙ hex_one b (suc b / 16) _ (omega (arith, h))

pad-to_hex : (b : ℕ) → b < 256 → pad (to_hex b) ≡ hex_digit (b / 16) ∷ hex_digit (b % 16) ∷ []
pad-to_hex b h = elim (Bool-cases (ltb b 16)) [
  | inl small ↦
      let low : b < 16 = ground arith in
      let div16 : b / 16 ≡ 0 = omega (arith, low) in
      let mod16 : b % 16 ≡ b = omega (arith, low) in ap pad (to_hex_small b low) ∙ rw (div16, mod16)
  | inr large ↦ ap pad (to_hex_large b (ground arith) h)
]

item :
    (i b : ℕ) (rest : Bytes)
    → b < 256
    → digest_items i (b ∷ rest) ≡ separator i ++ (byte_text b ++ digest_items (i + 1) rest)
unfolding digest_items
item i b rest h = rw (pad-to_hex b h) refl

comma : (i : ℕ) → 0 < i % 8 → separator i ≡ b',' ∷ []
comma i h = ground arith

new_line : (i : ℕ) → 0 < i → i % 8 ≡ 0 → separator i ≡ b',' ∷ b'\n' ∷ []
new_line i h m = ground arith

following_items :
    (i j : ℕ) (row tail : Bytes)
    → j ≡ i + length row
    → 0 < i % 8
    → i % 8 + length row ≤ 8
    → All IsByte row
    → digest_items i (row ++ tail) ≡ following row ++ digest_items j tail
following_items i j [] tail e h l a = ap (λ k. digest_items k tail) (omega (arith, e))
following_items i j (b ∷ []) tail e h l a =
    item i b tail a.0
    ∙ rw (comma i h) (ap (λ k. b',' ∷ (byte_text b ++ digest_items k tail)) (omega (arith, e)))
following_items i j (b ∷ c ∷ row) tail e h l a =
    item i b (c ∷ (row ++ tail)) a.0
    ∙ rw (comma i h) (
        ap (λ t. b',' ∷ (byte_text b ++ t))
          (following_items (i + 1) j (c ∷ row) tail (omega (arith, e)) (omega (arith, h, l))
            (omega (arith, h, l)) a.1))

-- A line of eight bytes that starts at an index.
row_items :
    (i j : ℕ) (row tail : Bytes)
    → j ≡ i + 8
    → i % 8 ≡ 0
    → length row ≡ 8
    → All IsByte row
    → digest_items i (row ++ tail) ≡ separator i ++ (row_text row ++ digest_items j tail)
row_items i j [] tail e m l a = absurd (omega (arith, l))
row_items i j (b ∷ row) tail e m l a =
    item i b (row ++ tail) a.0
    ∙ ap (λ t. separator i ++ (byte_text b ++ t))
        (following_items (i + 1) j row tail (omega (arith, e, l)) (omega (arith, m))
          (omega (arith, m, l)) a.1)

All-split : (n : ℕ) (xs : Bytes) → All IsByte xs → All IsByte (take n xs) × All IsByte (drop n xs)
All-split zero xs a = (tt, a)
All-split (suc n) [] a = (tt, tt)
All-split (suc n) (x ∷ xs) a = let (t, d) = All-split n xs a.1 in ((a.0, t), d)

-- The line that stands in front of the rest of a digest.
front_items :
    (i j : ℕ) (digest : Bytes)
    → j ≡ i + 8
    → i % 8 ≡ 0
    → 8 ≤ length digest
    → All IsByte digest
    → digest_items i digest
      ≡ separator i ++ (row_text (take 8 digest) ++ digest_items j (drop 8 digest))
front_items i j digest e m l a =
    ap (digest_items i) (sym (take-append-drop 8 digest))
    ∙ row_items i j (take 8 digest) (drop 8 digest) e m (length-take 8 digest ∙ omega (arith, l))
        (All-split 8 digest a).0

lines_items :
    (n i : ℕ) (digest : Bytes)
    → 0 < i
    → i % 8 ≡ 0
    → length digest ≡ 8 * n
    → All IsByte digest
    → digest_items i digest ≡ lines_text n digest
lines_items zero i [] o m l a = unfold digest_items in refl
lines_items zero i (b ∷ digest) o m l a = absurd (omega (arith, l))
lines_items (suc n) i digest o m l a =
    front_items i (i + 8) digest refl m (omega (arith, l)) a
    ∙ ap₂ ◌++◌ (new_line i o m) (
        ap (◌++◌ (row_text (take 8 digest))) (
          lines_items n (i + 8) (drop 8 digest) (omega arith) (omega (arith, m))
            (length-drop 8 digest ∙ omega (arith, l)) (All-split 8 digest a).1))

-- A digest of 32 bytes is printed as those lines.
pub digest_text-rows_text :
    (digest : Bytes)
    → length digest ≡ 32
    → All IsByte digest
    → digest_text digest ≡ codes "digest={" ++ (rows_text digest ++ codes "}\n")
digest_text-rows_text digest l a =
    ap (λ t. codes "digest={" ++ (t ++ codes "}\n"))
      (front_items 0 8 digest refl refl (omega (arith, l)) a
        ∙ ap (λ t. b'\n' ∷ (row_text (take 8 digest) ++ t))
            (lines_items 3 8 (drop 8 digest) (omega arith) refl
              (length-drop 8 digest ∙ omega (arith, l)) (All-split 8 digest a).1))
