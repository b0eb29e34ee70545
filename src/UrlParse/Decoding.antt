-- ===== src/UrlParse/Decoding.antt =====
-- The decoder against a relation that says what each character of a line becomes.
use tjtools.Common.{
  ℕ, zero, suc, ◌+◌, ◌*◌, ◌<◌, ◌≡◌, ◌≢◌, ◌↔◌, refl, sym, ap, ◌∙◌, subst, true, ◌⊎◌, inl, inr, [],
  ◌∷◌, ◌++◌, none, some, Bytes, arith, Bool-cases, Option-cases,
}
use native.Mathlib.Decide.{ℕ_discrete}
use mathlib.Core.List.{append-nil, append_assoc}
use tjtools.UrlParse.{is_valid, digit_value, parse, decode_from, decode_line}

-- Two valid digits stand at the front.
abbrev pub IsEscape : Bytes → Type 0
IsEscape [] = ⊥
IsEscape (h ∷ []) = ⊥
IsEscape (h ∷ l ∷ _) = (is_valid h ≡ true) × (is_valid l ≡ true)

-- A character that is no percent sign stands for itself, a sign with two digits for their byte; a
-- sign without them is dropped, and what follows it is read as text.
pub data Decodes : Bytes → Bytes → Type 0 where
  done : Decodes [] []
  plain : {c : ℕ} {line out : Bytes} → c ≢ b'%' → Decodes line out → Decodes (c ∷ line) (c ∷ out)
  escape :
      {c h l k : ℕ} {line out : Bytes}
      → c ≡ b'%'
      → IsEscape (h ∷ l ∷ line)
      → k ≡ 16 * digit_value h + digit_value l
      → Decodes line out
      → Decodes (c ∷ h ∷ l ∷ line) (k ∷ out)
  broken :
      {c : ℕ} {line out : Bytes}
      → c ≡ b'%'
      → ¬ IsEscape line
      → Decodes line out
      → Decodes (c ∷ line) out

-- Two valid digits are always a byte, so the test of the decoded number never fails.
pub parse_escape :
    (h l : ℕ) (rest : Bytes)
    → IsEscape (h ∷ l ∷ rest)
    → (parse (h ∷ l ∷ rest) ≡ some (16 * digit_value h + digit_value l))
      × (16 * digit_value h + digit_value l < 256)
unfolding parse is_valid
parse_escape h l rest e = (ground arith, ground arith)

parse_broken : (rest : Bytes) → ¬ IsEscape rest → parse rest ≡ none
unfolding parse
parse_broken [] e = refl
parse_broken (h ∷ []) e = ground arith
parse_broken (h ∷ l ∷ rest) e = ground (arith, e)

IsEscape-dec : (rest : Bytes) → IsEscape rest ⊎ ¬ IsEscape rest
IsEscape-dec [] = inr (λ e. e)
IsEscape-dec (h ∷ []) = inr (λ e. e)
IsEscape-dec (h ∷ l ∷ rest) = elim (Bool-cases (is_valid h)) [
  | inl a ↦ elim (Bool-cases (is_valid l)) [ inl b ↦ inl (a, b) | inr b ↦ inr (λ e. cc) ]
  | inr a ↦ inr (λ e. cc)
]

module _ (line out : Bytes) where
  step_plain :
      (c : ℕ) → c ≢ b'%' → decode_from 0 out (c ∷ line) ≡ decode_from 0 (out ++ c ∷ []) line
  unfolding decode_from
  step_plain c h = ground arith

  step_some :
      (k : ℕ)
      → parse line ≡ some k
      → decode_from 0 out (b'%' ∷ line) ≡ decode_from 2 (out ++ k ∷ []) line
  unfolding decode_from
  step_some k e = rw (e, decode_from)

  step_none : parse line ≡ none → decode_from 0 out (b'%' ∷ line) ≡ decode_from 0 out line
  unfolding decode_from
  step_none e = rw (e, decode_from)

  step_skip : (c skip : ℕ) → decode_from (suc skip) out (c ∷ line) ≡ decode_from skip out line
  unfolding decode_from
  step_skip c skip = refl

decode_from_nil : (skip : ℕ) (out : Bytes) → decode_from skip out [] ≡ out
unfolding decode_from
decode_from_nil skip out = refl

-- What has been decoded stays in front.
IsFront : ℕ → Bytes → Type 0
IsFront skip line = (out : Bytes) → decode_from skip out line ≡ out ++ decode_from skip [] line

push_front :
    (skip k : ℕ) (line out : Bytes)
    → IsFront skip line
    → decode_from skip (out ++ k ∷ []) line ≡ out ++ decode_from skip (k ∷ []) line
unfolding IsFront
push_front skip k line out h =
    h (out ++ k ∷ []) ∙ append_assoc out (k ∷ []) _ ∙ ap (◌++◌ out) (sym (h (k ∷ [])))

decode_from-IsFront : (line : Bytes) (skip : ℕ) → IsFront skip line
unfolding IsFront
decode_from-IsFront [] skip out = rw (decode_from_nil skip out, decode_from_nil skip [], append-nil)
decode_from-IsFront (c ∷ line) (suc skip) out =
    step_skip line out c skip
    ∙ decode_from-IsFront line skip out
    ∙ ap (◌++◌ out) (sym (step_skip line [] c skip))
decode_from-IsFront (c ∷ line) zero out = elim (ℕ_discrete c b'%') [
  | no other ↦
      step_plain line out c other
      ∙ push_front 0 c line out (decode_from-IsFront line 0)
      ∙ ap (◌++◌ out) (sym (step_plain line [] c other))
  | yes sign ↦ rw sign (elim (Option-cases (parse line)) [
    | inl e ↦
        step_none line out e
        ∙ decode_from-IsFront line 0 out
        ∙ ap (◌++◌ out) (sym (step_none line [] e))
    | inr (k, e) ↦
        step_some line out k e
        ∙ push_front 2 k line out (decode_from-IsFront line 2)
        ∙ ap (◌++◌ out) (sym (step_some line [] k e))
  ])
]

-- The decoder character by character.
module _ (line : Bytes) where
  pub decode_line_nil : decode_line [] ≡ []
  unfolding decode_line
  decode_line_nil = refl

  pub decode_line_plain : (c : ℕ) → c ≢ b'%' → decode_line (c ∷ line) ≡ c ∷ decode_line line
  unfolding decode_line IsFront
  decode_line_plain c h = step_plain line [] c h ∙ decode_from-IsFront line 0 (c ∷ [])

  pub decode_line_escape :
      (h l : ℕ)
      → IsEscape (h ∷ l ∷ line)
      → decode_line (b'%' ∷ h ∷ l ∷ line) ≡ (16 * digit_value h + digit_value l) ∷ decode_line line
  unfolding decode_line IsFront
  decode_line_escape h l e =
      let k = 16 * digit_value h + digit_value l in
      step_some (h ∷ l ∷ line) [] k (parse_escape h l line e).0
      ∙ step_skip (l ∷ line) (k ∷ []) h 1
      ∙ step_skip line (k ∷ []) l 0
      ∙ decode_from-IsFront line 0 (k ∷ [])

  pub decode_line_broken : ¬ IsEscape line → decode_line (b'%' ∷ line) ≡ decode_line line
  unfolding decode_line
  decode_line_broken e = step_none line [] (parse_broken line e)

Decodes-decode_line : {line out : Bytes} → Decodes line out → decode_line line ≡ out
Decodes-decode_line done = decode_line_nil []
Decodes-decode_line (plain {c} {line} h d) =
    decode_line_plain line c h ∙ ap (◌∷◌ c) (Decodes-decode_line d)
Decodes-decode_line (escape {c} {h} {l} {k} {line} s e v d) =
    rw (s, v)
      (decode_line_escape line h l e
        ∙ ap (◌∷◌ (16 * digit_value h + digit_value l)) (Decodes-decode_line d))
Decodes-decode_line (broken {c} {line} s e d) =
    rw s (decode_line_broken line e ∙ Decodes-decode_line d)

one_character :
    (c : ℕ) (line : Bytes)
    → ¬ IsEscape line
    → Decodes line (decode_line line)
    → Decodes (c ∷ line) (decode_line (c ∷ line))
one_character c line e d = elim (ℕ_discrete c b'%') [
  | no other ↦ rw (decode_line_plain line c other) (plain other d)
  | yes sign ↦ rw (sign, decode_line_broken line e) (broken refl e d)
]

three_characters :
    (c h l : ℕ) (line : Bytes)
    → IsEscape (h ∷ l ∷ line)
    → Decodes (h ∷ l ∷ line) (decode_line (h ∷ l ∷ line))
    → Decodes line (decode_line line)
    → Decodes (c ∷ h ∷ l ∷ line) (decode_line (c ∷ h ∷ l ∷ line))
three_characters c h l line e d d' = elim (ℕ_discrete c b'%') [
  | no other ↦ rw (decode_line_plain (h ∷ l ∷ line) c other) (plain other d)
  | yes sign ↦ rw (sign, decode_line_escape line h l e) (escape refl e refl d')
]

decode_line-Decodes : (line : Bytes) → Decodes line (decode_line line)
decode_line-Decodes [] = rw (decode_line_nil []) done
decode_line-Decodes (c ∷ []) = one_character c [] (λ e. e) (decode_line-Decodes [])
decode_line-Decodes (c ∷ h ∷ []) = one_character c (h ∷ []) (λ e. e) (decode_line-Decodes (h ∷ []))
decode_line-Decodes (c ∷ h ∷ l ∷ line) = elim (IsEscape-dec (h ∷ l ∷ line)) [
  | inl e ↦
      three_characters c h l line e (decode_line-Decodes (h ∷ l ∷ line)) (decode_line-Decodes line)
  | inr e ↦ one_character c (h ∷ l ∷ line) e (decode_line-Decodes (h ∷ l ∷ line))
]

-- The decoder computes the relation: a line decodes to a text exactly if the program prints it.
pub decode_line_iff : (line out : Bytes) → Decodes line out ↔ (decode_line line ≡ out)
decode_line_iff line out =
    (Decodes-decode_line, λ e. subst (Decodes line) e (decode_line-Decodes line))
