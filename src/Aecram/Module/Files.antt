-- ===== src/Aecram/Module/Files.antt =====
-- The list of open files.
use tjtools.Common.{
  ℕ, ◌+◌, ◌≡◌, ◌≢◌, refl, ap, [], ◌∷◌, none, some, ◌==◌, subst, length, All, arith, Bool-cases, inl,
  inr,
}
use tjtools.Aecram.Driver.{AecramSession}
use tjtools.Aecram.Module.{Files, find, remove, replace}

abbrev pub Sessions : (AecramSession → Type 0) → Files → Type 0
Sessions P = All (λ f. P f.1)

pub find-Sessions :
    (P : AecramSession → Type 0) (filp : ℕ) (files : Files) (s : AecramSession)
    → Sessions P files
    → find filp files ≡ some s
    → P s
unfolding find
find-Sessions P filp [] s h e = absurd (cc)
find-Sessions P filp ((f, t) ∷ files) s h e = elim (Bool-cases (f == filp)) [
  | inl same ↦
      let found : some t ≡ some s = rw same at e in let session : t ≡ s = cc in subst P session h.0
  | inr other ↦ find-Sessions P filp files s h.1 (rw other at e)
]

pub remove-Sessions :
    (P : AecramSession → Type 0) (filp : ℕ) (files : Files)
    → Sessions P files
    → Sessions P (remove filp files)
unfolding remove
remove-Sessions P filp [] h = tt
remove-Sessions P filp ((f, t) ∷ files) h = elim (Bool-cases (f == filp)) [
  | inl same ↦ rw same h.1
  | inr other ↦ rw other (h.0, remove-Sessions P filp files h.1)
]

pub replace-Sessions :
    (P : AecramSession → Type 0) (filp : ℕ) (s : AecramSession) (files : Files)
    → P s
    → Sessions P files
    → Sessions P (replace filp s files)
unfolding replace
replace-Sessions P filp s [] p h = tt
replace-Sessions P filp s ((f, t) ∷ files) p h = elim (Bool-cases (f == filp)) [
  | inl same ↦ rw same (p, h.1)
  | inr other ↦ rw other (h.0, replace-Sessions P filp s files p h.1)
]

pub length-remove :
    (filp : ℕ) (files : Files) (s : AecramSession)
    → find filp files ≡ some s
    → length files ≡ length (remove filp files) + 1
unfolding find remove
length-remove filp [] s e = absurd (cc)
length-remove filp ((f, t) ∷ files) s e = ground (arith, length-remove filp files s)

pub length-replace :
    (filp : ℕ) (s : AecramSession) (files : Files) → length (replace filp s files) ≡ length files
unfolding replace
length-replace filp s [] = refl
length-replace filp s ((f, t) ∷ files) = ground (arith, length-replace filp s files)

-- A call on one file leaves the sessions of the others alone.
pub find-replace :
    (filp other : ℕ) (s : AecramSession) (files : Files)
    → other ≢ filp
    → find other (replace filp s files) ≡ find other files
unfolding find replace
find-replace filp other s [] n = refl
find-replace filp other s ((f, t) ∷ files) n = ground (arith, find-replace filp other s files n)

pub find_nil : (filp : ℕ) (files : Files) → files ≡ [] → find filp files ≡ none
unfolding find
find_nil filp files e = ap (find filp) e
