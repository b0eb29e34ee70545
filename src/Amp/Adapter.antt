-- ===== src/Amp/Adapter.antt =====
-- src/clevo_amp_control.c: the search for the adapter in open_amplifier.
use tjtools.Common.{
  ◌≡◌, refl, ◌∙◌, Bool, false, List, [], ◌∷◌, Option, none, some, Bytes, codes, equal, length, take,
  min, if◌then◌else◌, inl, inr, Bool-cases,
}
use tjtools.Common.Int.{ℤ, negsuc}

-- An entry of /sys/class/i2c-dev: the number that sscanf finds in its name, and what read gives of the
-- file `name`: nothing if the file does not open, and an error or bytes if it does.
pub record Entry : Type 0 where
  pub index : Option ℤ
  pub name : Option (Option Bytes)

abbrev identifier : Bytes
identifier = codes "SMBus I801 adapter at"

-- The comparison is over the bytes that were read.
abbrev pub found : Option Bytes → Bool
found none = false
found (some text) =
    let len = min (length text) (length identifier) in equal (take len identifier) (take len text)

-- One round, with what follows it.
abbrev visit : ℤ → Option ℤ → Option (Option Bytes) → (ℤ → ℤ) → ℤ
visit i2c_idx none name next = next i2c_idx
visit i2c_idx (some i) none next = next i
visit i2c_idx (some i) (some text) next = if found text then i else next (negsuc 0)

-- The loop, from the value of i2c_idx.
unfoldable pub scan : ℤ → List Entry → ℤ
scan i2c_idx [] = i2c_idx
scan i2c_idx (e ∷ entries) = visit i2c_idx e.index e.name (λ j. scan j entries)

abbrev pub Adapter : Type 0
Adapter = ℤ × Option (Option Bytes)

abbrev add : Option ℤ → Option (Option Bytes) → List Adapter → List Adapter
add none name listed = listed
add (some i) name listed = (i, name) ∷ listed

-- The entries that are adapters.
abbrev pub adapters : List Entry → List Adapter
adapters [] = []
adapters (e ∷ entries) = add e.index e.name (adapters entries)

abbrev is_match : Option (Option Bytes) → Bool
is_match none = false
is_match (some text) = found text

abbrev first_match : List Adapter → Option ℤ
first_match [] = none
first_match ((i, name) ∷ rest) = if is_match name then some i else first_match rest

abbrev last : List Adapter → Option Adapter
last [] = none
last (a ∷ rest) = elim (last rest) [ none ↦ some a | some b ↦ some b ]

-- An adapter without a match: its number, if its name could not be read at all.
abbrev unmatched : Adapter → ℤ
unmatched (i, none) = i
unmatched (i, some text) = negsuc 0

abbrev left_over : ℤ → Option Adapter → ℤ
left_over i2c_idx none = i2c_idx
left_over i2c_idx (some a) = unmatched a

abbrev match_or : Option ℤ → ℤ → ℤ
match_or none other = other
match_or (some i) other = i

-- The number of the first adapter whose name matches; if there is none, what the last adapter leaves;
-- and without an adapter, what was there before.
abbrev pub chosen : ℤ → List Adapter → ℤ
chosen i2c_idx listed = match_or (first_match listed) (left_over i2c_idx (last listed))

chosen_next :
    (i2c_idx : ℤ) (a : Adapter) (listed : List Adapter)
    → is_match a.1 ≡ false
    → chosen (unmatched a) listed ≡ chosen i2c_idx (a ∷ listed)
chosen_next i2c_idx a listed e =
    rw e
      (elim (last listed)
        as (λ l.
          match_or (first_match listed) (left_over (unmatched a) l)
          ≡ match_or (first_match listed)
              (left_over i2c_idx (elim l [ none ↦ some a | some b ↦ some b ]))) [
                | none ↦ refl
                | some b ↦ refl
              ])

visit-chosen :
    (i2c_idx : ℤ) (index : Option ℤ) (name : Option (Option Bytes)) (entries : List Entry)
    → ((j : ℤ) → scan j entries ≡ chosen j (adapters entries))
    → visit i2c_idx index name (λ j. scan j entries)
      ≡ chosen i2c_idx (add index name (adapters entries))
visit-chosen i2c_idx none name entries later = later i2c_idx
visit-chosen i2c_idx (some i) none entries later =
    later i ∙ chosen_next i2c_idx (i, none) (adapters entries) refl
visit-chosen i2c_idx (some i) (some text) entries later = elim (Bool-cases (found text)) [
  | inl e ↦ rw e refl
  | inr e ↦ (rw e (later (negsuc 0))) ∙ chosen_next i2c_idx (i, some text) (adapters entries) e
]

-- The loop picks the first adapter whose name matches. Without a match it leaves a negative number if
-- the name of the last adapter was opened, and the number of that adapter if it was not; without an
-- adapter, the value that i2c_idx had before it was assigned.
pub scan-chosen :
    (i2c_idx : ℤ) (entries : List Entry) → scan i2c_idx entries ≡ chosen i2c_idx (adapters entries)
unfolding scan
scan-chosen i2c_idx [] = refl
scan-chosen i2c_idx (e ∷ entries) =
    visit-chosen i2c_idx e.index e.name entries (λ j. scan-chosen j entries)
