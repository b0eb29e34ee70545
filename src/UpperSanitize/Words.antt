-- ===== src/UpperSanitize/Words.antt =====
-- What the loop does to the words of a line.
use mathlib.Core.List.{append-nil}
use tjtools.Common.{
  ℕ, ◌+◌, ◌≡◌, refl, sym, ap, ◌∙◌, true, false, ◌⊎◌, inl, inr, [], ◌∷◌, ◌++◌, map, Bytes, All,
  arith,
}
use native.Mathlib.Decide.{ℕ_discrete}
use tjtools.UpperSanitize.{
  isupper, isalpha, tolower, is_blank, State, step, sanitize_from, at_line, sanitize,
}

-- A second pass finds nothing to do.
step_twice : (s : State) (c : ℕ) → step s (step s c).1 ≡ step s c
unfolding step
step_twice s c = ground arith

sanitize_from_idem :
    (s : State) (line : Bytes) → sanitize_from s (sanitize_from s line) ≡ sanitize_from s line
unfolding sanitize_from
sanitize_from_idem s [] = refl
sanitize_from_idem s (c ∷ line) =
    rw (step_twice s c) (ap (◌∷◌ (step s c).1) (sanitize_from_idem (step s c).0 line))

-- A text that the program has printed it prints again.
pub sanitize_idem : (line : Bytes) → sanitize (sanitize line) ≡ sanitize line
unfolding sanitize
sanitize_idem line = sanitize_from_idem at_line line

-- The second text is the first one with some of its capitals lowered.
pub data Lowers : Bytes → Bytes → Type 0 where
  nil : Lowers [] []
  keep : {c : ℕ} {line out : Bytes} → Lowers line out → Lowers (c ∷ line) (c ∷ out)
  lower :
      {c d : ℕ} {line out : Bytes}
      → isupper c ≡ true
      → d ≡ c + 32
      → Lowers line out
      → Lowers (c ∷ line) (d ∷ out)

step-Lowers :
    (s : State) (c : ℕ) → ((step s c).1 ≡ c) ⊎ ((isupper c ≡ true) × ((step s c).1 ≡ c + 32))
unfolding step
step-Lowers s c = elim (ℕ_discrete (step s c).1 c) [
  | yes same ↦ inl same
  | no other ↦ inr (ground arith, ground arith)
]

sanitize_from-Lowers : (s : State) (line : Bytes) → Lowers line (sanitize_from s line)
unfolding sanitize_from
sanitize_from-Lowers s [] = nil
sanitize_from-Lowers s (c ∷ line) = elim (step-Lowers s c) [
  | inl e ↦ rw e (keep (sanitize_from-Lowers (step s c).0 line))
  | inr (u, e) ↦ lower u e (sanitize_from-Lowers (step s c).0 line)
]

-- Only capitals change, each to its lower-case letter, and the text keeps its length.
pub sanitize-Lowers : (line : Bytes) → Lowers line (sanitize line)
unfolding sanitize
sanitize-Lowers line = sanitize_from-Lowers at_line line

abbrev pub after_blank : State
after_blank = record { line_begin = false; word_begin = true }

abbrev pub in_word : State
in_word = record { line_begin = false; word_begin = false }

unfoldable pub state_after : State → Bytes → State
state_after s [] = s
state_after s (c ∷ line) = state_after (step s c).0 line

pub sanitize_from-append :
    (s : State) (line tail : Bytes)
    → sanitize_from s (line ++ tail)
      ≡ sanitize_from s line ++ sanitize_from (state_after s line) tail
unfolding sanitize_from state_after
sanitize_from-append s [] tail = refl
sanitize_from-append s (c ∷ line) tail =
    ap (◌∷◌ (step s c).1) (sanitize_from-append (step s c).0 line tail)

state_after_blank :
    (s : State) (front : Bytes) (b : ℕ)
    → s.line_begin ≡ false
    → is_blank b ≡ true
    → state_after s (front ++ b ∷ []) ≡ after_blank
unfolding state_after step
state_after_blank s [] b l h = ground arith
state_after_blank s (c ∷ front) b l h = state_after_blank (step s c).0 front b (ground arith) h

sanitize_from_rest :
    (rest tail : Bytes)
    → All (λ c. is_blank c ≡ false) rest
    → sanitize_from in_word (rest ++ tail) ≡ map tolower rest ++ sanitize_from in_word tail
unfolding sanitize_from step
sanitize_from_rest [] tail h = refl
sanitize_from_rest (c ∷ rest) tail h = ground (arith, sanitize_from_rest rest tail h.1)

-- Digits and marks in front of the first letter of a word.
abbrev pub IsLead : ℕ → Type 0
IsLead c = (is_blank c ≡ false) × (isalpha c ≡ false)

sanitize_from_lead :
    (lead rest : Bytes) (a : ℕ)
    → All IsLead lead
    → isalpha a ≡ true
    → sanitize_from after_blank (lead ++ a ∷ rest) ≡ lead ++ a ∷ sanitize_from in_word rest
unfolding sanitize_from step
sanitize_from_lead [] rest a h l = ground arith
sanitize_from_lead (c ∷ lead) rest a h l = ground (arith, sanitize_from_lead lead rest a h.1 l)

sanitize_from_word :
    (lead rest tail : Bytes) (a : ℕ)
    → All IsLead lead
    → isalpha a ≡ true
    → All (λ c. is_blank c ≡ false) rest
    → sanitize_from after_blank (lead ++ a ∷ (rest ++ tail))
      ≡ lead ++ a ∷ (map tolower rest ++ sanitize_from in_word tail)
sanitize_from_word lead rest tail a h l r =
    sanitize_from_lead lead (rest ++ tail) a h l
    ∙ ap (λ t. lead ++ a ∷ t) (sanitize_from_rest rest tail r)

-- Behind a blank that is not the first character of the line, a word keeps its first letter and
-- has all the others lowered; what stands in front of the word does not depend on it.
pub sanitize_word :
    (first b a : ℕ) (front lead rest tail : Bytes)
    → is_blank b ≡ true
    → All IsLead lead
    → isalpha a ≡ true
    → All (λ c. is_blank c ≡ false) rest
    → sanitize (first ∷ ((front ++ b ∷ []) ++ (lead ++ a ∷ (rest ++ tail))))
      ≡ sanitize (first ∷ (front ++ b ∷ []))
        ++ (lead ++ a ∷ (map tolower rest ++ sanitize_from in_word tail))
unfolding sanitize
sanitize_word first b a front lead rest tail blank h l r =
    sanitize_from-append at_line (first ∷ (front ++ b ∷ [])) (lead ++ a ∷ (rest ++ tail))
    ∙ ap (◌++◌ (sanitize_from at_line (first ∷ (front ++ b ∷ [])))) (
        ap (λ s. sanitize_from s (lead ++ a ∷ (rest ++ tail))) after
        ∙ sanitize_from_word lead rest tail a h l r)
  where
    after : state_after at_line (first ∷ (front ++ b ∷ [])) ≡ after_blank
    after = unfold state_after step in state_after_blank in_word front b refl blank

sanitize_cons : (c : ℕ) (line : Bytes) → sanitize (c ∷ line) ≡ c ∷ sanitize_from in_word line
unfolding sanitize
sanitize_cons c line = refl

in_word_blank :
    (b : ℕ) (line : Bytes)
    → is_blank b ≡ true
    → sanitize_from in_word (b ∷ line) ≡ b ∷ sanitize_from after_blank line
unfolding sanitize_from
in_word_blank b line h = ground arith

in_word_nil : sanitize_from in_word [] ≡ []
unfolding sanitize_from
in_word_nil = refl

word_to_end :
    (rest : Bytes)
    → All (λ c. is_blank c ≡ false) rest
    → sanitize_from in_word rest ≡ map tolower rest
word_to_end rest h =
    ap (sanitize_from in_word) (sym (append-nil rest))
    ∙ sanitize_from_rest rest [] h
    ∙ ap (◌++◌ (map tolower rest)) in_word_nil
    ∙ append-nil (map tolower rest)

-- A single blank at the start of a line counts as the line's first character and starts no word:
-- the word behind it loses its capital, which it keeps behind two blanks.
pub sanitize_first_blank :
    (b a : ℕ) (rest : Bytes)
    → is_blank b ≡ true
    → isalpha a ≡ true
    → All (λ c. is_blank c ≡ false) (a ∷ rest)
    → (sanitize (b ∷ a ∷ rest) ≡ b ∷ tolower a ∷ map tolower rest)
      × (sanitize (b ∷ b ∷ a ∷ rest) ≡ b ∷ b ∷ a ∷ map tolower rest)
sanitize_first_blank b a rest blank l r = (
  sanitize_cons b (a ∷ rest) ∙ ap (◌∷◌ b) (word_to_end (a ∷ rest) r),
  sanitize_cons b (b ∷ a ∷ rest)
      ∙ ap (◌∷◌ b) (
          in_word_blank b (a ∷ rest) blank
          ∙ ap (◌∷◌ b) (sanitize_from_lead [] rest a tt l ∙ ap (◌∷◌ a) (word_to_end rest r.1))),
)
