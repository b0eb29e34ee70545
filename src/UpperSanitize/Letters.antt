-- ===== src/UpperSanitize/Letters.antt =====
-- Which letters of a line src/upper_sanitize.cpp lowers, place by place.
use tjtools.Common.{
  ℕ, suc, ◌≡◌, ◌↔◌, refl, sym, ap, ◌∙◌, Bool, true, false, not, ◌&&◌, ◌||◌, ◌⊎◌, inl, inr, [], ◌∷◌,
  ◌++◌, some, Bytes, All, length, get_elem?, arith, Bool-cases,
}
use tjtools.UpperSanitize.{
  isalpha, tolower, is_blank, State, step, sanitize_from, at_line, sanitize,
}
use tjtools.UpperSanitize.Words.{IsLead, state_after, sanitize_from-append, after_blank, in_word}

-- Behind the last blank of the text there is no letter.
pub data Opens : Bytes → Type 0 where
  here : {b : ℕ} {lead : Bytes} → is_blank b ≡ true → All IsLead lead → Opens (b ∷ lead)
  there : {c : ℕ} {text : Bytes} → Opens text → Opens (c ∷ text)

-- The place behind the text keeps its letter: it is the first of the line, or the text has a blank other
-- than at the first place of the line and no letter behind the last blank.
pub data Keeps : Bytes → Type 0 where
  first : Keeps []
  begins : {c : ℕ} {text : Bytes} → Opens text → Keeps (c ∷ text)

abbrev flags : Bool → State
flags w = record { line_begin = false; word_begin = w }

-- The flag behind a text, by the flag in front of it.
abbrev Begins : Bool → Bytes → Type 0
Begins w text = Opens text ⊎ ((w ≡ true) × All IsLead text)

abbrev next_flag : Bool → ℕ → Bool
next_flag w c = is_blank c || (w && not (isalpha c))

step-flags : (w : Bool) (c : ℕ) → (step (flags w) c).0 ≡ flags (next_flag w c)
unfolding step
step-flags true c = ground arith
step-flags false c = ground arith

abbrev Kind : ℕ → Type 0
Kind c = (is_blank c ≡ true) ⊎ (IsLead c ⊎ ((is_blank c ≡ false) × (isalpha c ≡ true)))

kind : (c : ℕ) → Kind c
kind c = elim (Bool-cases (is_blank c)) [
  | inl b ↦ inl b
  | inr b ↦ elim (Bool-cases (isalpha c)) [ inl a ↦ inr (inr (b, a)) | inr a ↦ inr (inl (b, a)) ]
]

Begins-cons :
    (w : Bool) (c : ℕ) (text : Bytes) → Kind c → Begins w (c ∷ text) ↔ Begins (next_flag w c) text
Begins-cons w c text (inl b) = (
  (λ h. elim h [
    | inl (here _ l) ↦ inr (ground arith, l)
    | inl (there o) ↦ inl o
    | inr (e, (l, _)) ↦ absurd (cc)
  ]),
  (λ h. elim h [ inl o ↦ inl (there o) | inr (_, l) ↦ inl (here b l) ]),
)
Begins-cons w c text (inr (inl lead)) = (
  (λ h. elim h [
    | inl (here b _) ↦ absurd (ground (arith, lead, b))
    | inl (there o) ↦ inl o
    | inr (e, (_, l)) ↦ inr (ground (arith, lead, e), l)
  ]),
  (λ h. elim h [ inl o ↦ inl (there o) | inr (e, l) ↦ inr (ground (arith, lead, e), (lead, l)) ]),
)
Begins-cons w c text (inr (inr letter)) = (
  (λ h. elim h [
    | inl (here b _) ↦ absurd (ground (arith, letter, b))
    | inl (there o) ↦ inl o
    | inr (e, (lead, _)) ↦ absurd (ground (arith, letter, lead))
  ]),
  (λ h. elim h [ inl o ↦ inl (there o) | inr (e, l) ↦ absurd (ground (arith, letter, e)) ]),
)

after_text :
    (w : Bool) (text : Bytes)
    → ((state_after (flags w) text ≡ after_blank) × Begins w text)
      ⊎ ((state_after (flags w) text ≡ in_word) × (¬ Begins w text))
unfolding state_after
after_text true [] = inl (refl, inr (refl, tt))
after_text false [] = inr (refl, λ h. elim h [ inl o ↦ elim o [ ] | inr (e, _) ↦ absurd (cc) ])
after_text w (c ∷ text) =
    let moved = ap (λ s. state_after s text) (step-flags w c) in
    let iff = Begins-cons w c text (kind c) in
    elim (after_text (next_flag w c) text) [
      | inl (e, h) ↦ inl (moved ∙ e, iff.1 h)
      | inr (e, h) ↦ inr (moved ∙ e, λ x. h (iff.0 x))
    ]

length-sanitize_from : (s : State) (line : Bytes) → length (sanitize_from s line) ≡ length line
unfolding sanitize_from
length-sanitize_from s [] = refl
length-sanitize_from s (c ∷ line) = ap suc (length-sanitize_from (step s c).0 line)

get_elem?-behind :
    (front back : Bytes) (c : ℕ) → get_elem? (front ++ c ∷ back) (length front) ≡ some c
get_elem?-behind [] back c = refl
get_elem?-behind (x ∷ front) back c = get_elem?-behind front back c

-- The character at a place, by the state in front of it.
at_place :
    (front back : Bytes) (c : ℕ)
    → get_elem? (sanitize (front ++ c ∷ back)) (length front)
      ≡ some (step (state_after at_line front) c).1
unfolding sanitize sanitize_from
at_place front back c =
    ap (λ line. get_elem? line (length front)) (sanitize_from-append at_line front (c ∷ back))
    ∙ ap
        (get_elem?
          (sanitize_from at_line front ++ sanitize_from (state_after at_line front) (c ∷ back)))
        (sym (length-sanitize_from at_line front))
    ∙ get_elem?-behind (sanitize_from at_line front) _ _

first_passes : (c : ℕ) → some (step (state_after at_line []) c).1 ≡ some c
unfolding step state_after
first_passes c = refl

passes : (c : ℕ) → (step after_blank c).1 ≡ c
unfolding step
passes c = ground arith

lowers : (c : ℕ) → (step in_word c).1 ≡ tolower c
unfolding step
lowers c = ground arith

state_after_first :
    (c : ℕ) (text : Bytes) → state_after at_line (c ∷ text) ≡ state_after in_word text
unfolding state_after step
state_after_first c text = refl

only-Opens : (text : Bytes) → Begins false text → Opens text
only-Opens text (inl o) = o
only-Opens text (inr (e, _)) = absurd (cc)

-- The output has as many characters as the line, and at each place the character of the line: a capital is
-- lowered exactly if the place is not the first of the line and, between it and the last blank in front of
-- it that is not the first character of the line, there is a letter, or there is no such blank.
pub sanitize_letters :
    (front back : Bytes) (c : ℕ)
    → let line = front ++ c ∷ back in
      (length (sanitize line) ≡ length line)
      × ((Keeps front × (get_elem? (sanitize line) (length front) ≡ some c))
          ⊎ ((¬ Keeps front) × (get_elem? (sanitize line) (length front) ≡ some (tolower c))))
unfolding sanitize
sanitize_letters front back c = (length-sanitize_from at_line (front ++ c ∷ back), cases front)
  where
    cases :
        (front : Bytes)
        → (Keeps front × (get_elem? (sanitize (front ++ c ∷ back)) (length front) ≡ some c))
          ⊎ ((¬ Keeps front)
              × (get_elem? (sanitize (front ++ c ∷ back)) (length front) ≡ some (tolower c)))
    cases [] = inl (first, at_place [] back c ∙ first_passes c)
    cases (x ∷ text) = elim (after_text false text) [
      | inl (e, h) ↦ inl (
        begins (only-Opens text h),
        at_place (x ∷ text) back c
            ∙ ap (λ s. some (step s c).1) (state_after_first x text ∙ e)
            ∙ ap some (passes c),
      )
      | inr (e, h) ↦ inr (
        (λ k. elim k [ begins o ↦ h (inl o) ]),
        at_place (x ∷ text) back c
            ∙ ap (λ s. some (step s c).1) (state_after_first x text ∙ e)
            ∙ ap some (lowers c),
      )
    ]
