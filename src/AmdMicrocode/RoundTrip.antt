-- ===== src/AmdMicrocode/RoundTrip.antt =====
-- A file that is laid out as the format wants is reported patch by patch.
use tjtools.Common.{
  ℕ, suc, ◌*◌, ◌%◌, ◌/◌, ◌≤◌, ◌<◌, ◌^◌, ◌≡◌, refl, subst, ◌∙◌, true, false, List, [], ◌∷◌, ◌++◌,
  Bytes, length, length-append, le32, of_le, of_le-le32, map, All, replicate, if◌then◌else◌, ◌==◌,
  arith, ltb,
}
use tjtools.AmdMicrocode.{
  Cursor, ◌>>=◌, next, finished, copy, read_entries, read_patch, read_patches, read_table,
  microcode_main, Report, field, magic,
}
use tjtools.AmdMicrocode.Patch.{cursor, patch_bytes, copy-append, read_patch_lem}

-- A patch for one CPU: its id, the rest of its table entry, and its payload.
pub record Patch : Type 0 where
  pub cpu : ℕ
  pub entry_tail : Bytes
  pub payload : Bytes

pub record IsPatch (p : Patch) : Type 0 where
  pub some_cpu : 0 < p.cpu
  pub cpu_word : p.cpu < 2 ^ 32
  pub tail_size : length p.entry_tail ≡ 12
  pub has_header : 64 ≤ length p.payload
  pub size_word : length p.payload < 2 ^ 32

abbrev pub entries : List Patch → Bytes → Bytes
entries [] rest = replicate 16 0 ++ rest
entries (p ∷ ps) rest = (le32 p.cpu ++ p.entry_tail) ++ entries ps rest

abbrev pub patches : List Patch → Bytes
patches [] = []
patches (p ∷ ps) = patch_bytes p.payload (patches ps)

-- The table ends with an entry of zeros.
abbrev pub container : List Patch → Bytes
container ps = (le32 magic ++ (le32 0 ++ le32 (16 * suc (length ps)))) ++ entries ps (patches ps)

abbrev pub report : Patch → Report
report p = record { installed_cpu = p.cpu; patch_id = field 4 p.payload; payload = p.payload }

copy_all :
    (n : ℕ) (xs ys : Bytes) → length xs ≡ n → copy n (cursor (xs ++ ys)) ≡ next (xs, cursor ys)
copy_all n xs ys e =
    subst (λ k. copy k (cursor (xs ++ ys)) ≡ next (xs, cursor ys)) e (copy-append xs ys)

read_entries_step :
    (n : ℕ) (xs ys : Bytes)
    → length xs ≡ 16
    → read_entries (suc n) (cursor (xs ++ ys)) ≡ (
        if field 0 xs == 0
        then next ([], cursor ys)
        else (read_entries n (cursor ys) >>= λ r. next (field 0 xs ∷ r.0, r.1)))
unfolding read_entries
read_entries_step n xs ys e =
    let enough : ltb (length (xs ++ ys)) 16 ≡ false = ground (arith, length-append xs ys) in
    rw enough (rw (copy_all 16 xs ys e))

entry_cpu : (cpu : ℕ) (tail : Bytes) → cpu < 2 ^ 32 → field 0 (le32 cpu ++ tail) ≡ cpu
entry_cpu cpu tail h = of_le-le32 cpu h

read_entries-entries :
    (ps : List Patch) (rest : Bytes)
    → All IsPatch ps
    → read_entries (suc (length ps)) (cursor (entries ps rest))
      ≡ next (map (λ p. p.cpu) ps, cursor rest)
read_entries-entries [] rest h = read_entries_step 0 (replicate 16 0) rest refl
read_entries-entries (p ∷ ps) rest h =
    let some_cpu : (p.cpu == 0) ≡ false = ground (arith, h.0.some_cpu) in
    read_entries_step (suc (length ps)) (le32 p.cpu ++ p.entry_tail) (entries ps rest)
      (omega (arith, h.0.tail_size))
    ∙ rw (entry_cpu p.cpu p.entry_tail h.0.cpu_word)
        (rw some_cpu (rw (read_entries-entries ps rest h.1)))

read_patch-report :
    (p : Patch) (rest : Bytes)
    → IsPatch p
    → read_patch p.cpu (cursor (patch_bytes p.payload rest)) ≡ next (report p, cursor rest)
read_patch-report p rest h =
    read_patch_lem p.cpu p.payload rest h.size_word (omega (arith, h.has_header))
    ∙ ground (arith, h.has_header)

read_patches_step :
    (cpu : ℕ) (cpus : List ℕ) (c c' : Cursor) (r : Report)
    → read_patch cpu c ≡ next (r, c')
    → read_patches (cpu ∷ cpus) c ≡ (r ∷ (read_patches cpus c').0, (read_patches cpus c').1)
unfolding read_patches
read_patches_step cpu cpus c c' r e = rw (e, read_patches)

read_patches-patches :
    (ps : List Patch)
    → All IsPatch ps
    → read_patches (map (λ p. p.cpu) ps) (cursor (patches ps)) ≡ (map report ps, finished)
read_patches-patches [] h = unfold read_patches in refl
read_patches-patches (p ∷ ps) h =
    read_patches_step p.cpu (map (λ q. q.cpu) ps) _ (cursor (patches ps)) (report p)
      (read_patch-report p (patches ps) h.0)
    ∙ rw (read_patches-patches ps h.1)

-- The outer header leads to the loop over the table.
read_table-container :
    (ps : List Patch)
    → All IsPatch ps
    → suc (length ps) < 2 ^ 28
    → read_table (container ps) ≡ next (map (λ p. p.cpu) ps, cursor (patches ps))
unfolding read_table
read_table-container ps h b =
    let n = suc (length ps) in
    let body = entries ps (patches ps) in
    let header = le32 magic ++ (le32 0 ++ le32 (16 * n)) in
    let filled : (length (container ps) == 0) ≡ false = ground arith in
    let enough : ltb (length (container ps)) 12 ≡ false = ground arith in
    let word : of_le (le32 (16 * n)) ≡ 16 * n = of_le-le32 (16 * n) (omega arith) in
    let even : (16 * n % 16 == 0) ≡ true = ground arith in
    let count : 16 * n / 16 ≡ n = omega arith in
    rw filled (
      rw enough (
        rw (copy_all 12 header body refl)
          (rw word (rw even (rw count (read_entries-entries ps (patches ps) h))))))

-- Every patch of a well-formed container, of less than 2 ^ 28 - 1 patches, is reported, in its order, with its id and its payload
-- as they stand in the file, and the run ends without an error.
pub microcode_main-container :
    (ps : List Patch)
    → All IsPatch ps
    → suc (length ps) < 2 ^ 28
    → microcode_main (container ps) ≡ (map report ps, finished)
unfolding microcode_main
microcode_main-container ps h b =
    rw (read_table-container ps h b, microcode_main) (read_patches-patches ps h)
