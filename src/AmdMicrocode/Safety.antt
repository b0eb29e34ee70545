-- ===== src/AmdMicrocode/Safety.antt =====
-- No read leaves the mapped file; one can leave the payload.
use tjtools.Common.{
  ℕ, ◌/◌, ◌%◌, zero, suc, ◌-◌, ◌≤◌, ◌≡◌, ◌≢◌, refl, Bool, true, false, List, [], ◌∷◌, Bytes, length,
  take, drop, length-drop, arith, inl, inr, Bool-cases, ltb, ltb→lt, ◌==◌, if◌then◌else◌, not,
}
use tjtools.AmdMicrocode.{
  Cursor, Step, ◌>>=◌, ◌>>◌, throw_if, field, MicrocodeError, short_entry, short_inner_header,
  wrong_patch_type, short_mc_header, short_payload, next, stop, outside_mapping, copy, read_entries,
  read_patch, read_patches, read_table, microcode_main, Report, empty_file, no_outer_header,
  wrong_magic, no_equiv_table, wrong_table_length, magic,
}

-- The program's count of the bytes that are left is right.
abbrev pub IsCounted : Cursor → Type 0
IsCounted c = c.available_bytes ≡ length c.buffer

-- A step that stops elsewhere than outside the mapping, and otherwise keeps the count.
abbrev IsSafe {ℓ} : {A : Type ℓ} → Step (A × Cursor) → Type 0
IsSafe (next (_, c)) = IsCounted c
IsSafe (stop e) = e ≢ outside_mapping

IsSafe-copy {ℓ} :
    {A : Type ℓ} (n : ℕ) (c : Cursor) (f : Bytes × Cursor → Step (A × Cursor))
    → IsCounted c
    → n ≤ c.available_bytes
    → ((bytes : Bytes) (c' : Cursor) → IsCounted c' → IsSafe (f (bytes, c')))
    → IsSafe (copy n c >>= f)
unfolding copy
IsSafe-copy n c f h b safe = elim (Bool-cases (ltb (length c.buffer) n)) [
  | inl short ↦ absurd (omega (arith, ltb→lt (length c.buffer) n short))
  | inr enough ↦ rw enough (
      safe (take n c.buffer)
        (record { buffer = drop n c.buffer; available_bytes = c.available_bytes - n })
        (omega (arith, length-drop n c.buffer)))
]

IsSafe-throw_if {ℓ} :
    {A : Type ℓ} (bad : Bool) (e : MicrocodeError) (k : Step (A × Cursor))
    → (bad ≡ false → IsSafe k)
    → IsSafe (throw_if bad e >> k)
IsSafe-throw_if true e k safe = λ x. cc
IsSafe-throw_if false e k safe = safe refl

IsSafe-push :
    (cpu : ℕ) (s : Step (List ℕ × Cursor)) → IsSafe s → IsSafe (s >>= λ x. next (cpu ∷ x.0, x.1))
IsSafe-push cpu (next _) h = h
IsSafe-push cpu (stop e) h = h

IsSafe-if {ℓ} :
    {A : Type ℓ} (b : Bool) (x y : Step (A × Cursor))
    → IsSafe x
    → IsSafe y
    → IsSafe (if b then x else y)
IsSafe-if true x y hx hy = hx
IsSafe-if false x y hx hy = hy

read_entries-IsSafe : (n : ℕ) (c : Cursor) → IsCounted c → IsSafe (read_entries n c)
unfolding read_entries
read_entries-IsSafe zero c h = h
read_entries-IsSafe (suc n) c h = IsSafe-throw_if (ltb c.available_bytes 16) short_entry _ λ enough.
    IsSafe-copy 16 c _ h (ground arith) λ entry c' h'.
      IsSafe-if (field 0 entry == 0) _ _ h'
        (IsSafe-push (field 0 entry) (read_entries n c') (read_entries-IsSafe n c' h'))

read_patch-IsSafe : (cpu : ℕ) (c : Cursor) → IsCounted c → IsSafe (read_patch cpu c)
unfolding read_patch
read_patch-IsSafe cpu c h = IsSafe-throw_if (ltb c.available_bytes 8) short_inner_header _ λ enough.
    IsSafe-copy 8 c _ h (ground arith) λ hdr c1 h1.
      IsSafe-throw_if (not (field 0 hdr == 1)) wrong_patch_type _ λ typed.
        IsSafe-throw_if (ltb c1.available_bytes 64) short_mc_header _ λ big.
          IsSafe-throw_if (ltb c1.available_bytes (field 4 hdr)) short_payload _
            λ fits. IsSafe-copy (field 4 hdr) c1 _ h1 (ground arith) λ payload c2 h2. ground arith

read_table-IsSafe : (file : Bytes) → IsSafe (read_table file)
unfolding read_table
read_table-IsSafe file = IsSafe-throw_if (length file == 0) empty_file _ λ filled.
    IsSafe-throw_if (ltb (length file) 12) no_outer_header _ λ enough.
      IsSafe-copy 12 (record { buffer = file; available_bytes = length file }) _ refl (ground arith)
        λ ohdr c h. IsSafe-throw_if (not (field 0 ohdr == magic)) wrong_magic _ λ m.
          IsSafe-throw_if (not (field 4 ohdr == 0)) no_equiv_table _ λ t.
            IsSafe-throw_if (not (field 8 ohdr % 16 == 0)) wrong_table_length _
              λ l. read_entries-IsSafe (field 8 ohdr / 16) c h

read_patches-safe :
    (cpus : List ℕ) (c : Cursor) → IsCounted c → (read_patches cpus c).1 ≢ outside_mapping
unfolding read_patches
read_patches-safe [] c h = λ e. cc
read_patches-safe (cpu ∷ cpus) c h =
    go (read_patch cpu c) refl (read_patch-IsSafe cpu c h) (read_patches-safe cpus)
  where
    go :
        (s : Step (Report × Cursor))
        → read_patch cpu c ≡ s
        → IsSafe s
        → ((c' : Cursor) → IsCounted c' → (read_patches cpus c').1 ≢ outside_mapping)
        → (read_patches (cpu ∷ cpus) c).1 ≢ outside_mapping
    go (stop e) same safe later = rw (same, read_patches) safe
    go (next (report, c')) same safe later = rw (same, read_patches) (later c' safe)

-- No run reads outside the mapped file, whatever the file holds.
pub microcode_main-ne-outside_mapping : (file : Bytes) → (microcode_main file).1 ≢ outside_mapping
unfolding microcode_main
microcode_main-ne-outside_mapping file = go (read_table file) refl (read_table-IsSafe file)
  where
    go :
        (s : Step (List ℕ × Cursor))
        → read_table file ≡ s
        → IsSafe s
        → (microcode_main file).1 ≢ outside_mapping
    go (stop e) same safe = rw (same, microcode_main) safe
    go (next (cpus, c)) same safe = rw (same, microcode_main) (read_patches-safe cpus c safe)
