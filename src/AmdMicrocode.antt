-- ===== src/AmdMicrocode.antt =====
-- src/amd_microcode.cpp: main over the mapped file. A report carries the payload whose digest is printed.
pub mod Safety
pub mod Patch
pub mod RoundTrip
pub mod Program
use tjtools.Common.{
  ℕ, zero, suc, ◌+◌, ◌-◌, ◌/◌, ◌%◌, Bool, true, false, not, List, [], ◌∷◌, ◌++◌, Bytes, ltb, ◌==◌,
  if◌then◌else◌, of_le, length, take, drop,
}

pub data MicrocodeError : Type 0 where
  empty_file no_outer_header wrong_magic no_equiv_table wrong_table_length short_entry :
      MicrocodeError
  short_inner_header wrong_patch_type short_mc_header short_payload : MicrocodeError

-- How a run ends: at an exception, or at a read outside the mapped file or outside a payload, which
-- is undefined.
pub data End : Type 0 where
  finished outside_mapping outside_payload : End
  thrown : MicrocodeError → End

pub data Step {ℓ} (A : Type ℓ) : Type ℓ where
  next : A → Step A
  stop : End → Step A

infixl 5 ◌>>=◌ ◌>>◌
abbrev pub ◌>>=◌ {ℓ κ} : {A : Type ℓ} {B : Type κ} → Step A → (A → Step B) → Step B
next a >>= f = f a
stop e >>= f = stop e

abbrev pub ◌>>◌ {ℓ} : {B : Type ℓ} → Step (Unit {0}) → Step B → Step B
m >> k = m >>= λ _. k

-- `if (bad) throw e;`
abbrev pub throw_if : Bool → MicrocodeError → Step (Unit {0})
throw_if true e = stop (thrown e)
throw_if false e = next tt

-- The bytes from `buffer` to the end of the mapping, and the program's own count of them.
pub record Cursor : Type 0 where
  pub buffer : Bytes
  pub available_bytes : ℕ

-- memcpy from the buffer, which moves on by as much.
unfoldable pub copy : ℕ → Cursor → Step (Bytes × Cursor)
copy n c =
    let rest : Cursor = record {
      buffer = drop n c.buffer;
      available_bytes = c.available_bytes - n;
    } in
    if ltb (length c.buffer) n then stop outside_mapping else next (take n c.buffer, rest)

-- A 32-bit field of a packed structure.
abbrev pub field : ℕ → Bytes → ℕ
field offset bytes = of_le (take 4 (drop offset bytes))

-- sizeof(OuterHeader), sizeof(EquivCPUEntry), sizeof(InnerHeader), sizeof(MicrocodeHeader)
abbrev pub outer_size : ℕ
outer_size = 12

abbrev pub entry_size : ℕ
entry_size = 16

abbrev pub inner_size : ℕ
inner_size = 8

abbrev pub mc_size : ℕ
mc_size = 64

abbrev pub magic : ℕ
magic = 0x414d44

-- The loop over the table: the installed_cpu of each entry, up to one that is zero.
unfoldable pub read_entries : ℕ → Cursor → Step (List ℕ × Cursor)
read_entries zero c = next ([], c)
read_entries (suc n) c = do
  throw_if (ltb c.available_bytes entry_size) short_entry
  (entry, c') ← copy entry_size c
  let installed_cpu = field 0 entry
  let more = do (cpus, c'') ← read_entries n c'; next (installed_cpu ∷ cpus, c'')
  if installed_cpu == 0 then next ([], c') else more

-- What is printed of a microcode.
pub record Report : Type 0 where
  pub installed_cpu : ℕ
  pub patch_id : ℕ
  pub payload : Bytes

-- mchdr->patch_id, read from the payload, whatever its size.
abbrev pub read_patch_id : Bytes → Step ℕ
read_patch_id payload =
    if ltb (length payload) 8 then stop outside_payload else next (field 4 payload)

-- One round of the loop over the entries.
unfoldable pub read_patch : ℕ → Cursor → Step (Report × Cursor)
read_patch cpu c = do
  throw_if (ltb c.available_bytes inner_size) short_inner_header
  (hdr, c1) ← copy inner_size c
  throw_if (not (field 0 hdr == 1)) wrong_patch_type
  throw_if (ltb c1.available_bytes mc_size) short_mc_header
  let p_size = field 4 hdr
  throw_if (ltb c1.available_bytes p_size) short_payload
  (payload, c2) ← copy p_size c1
  patch_id ← read_patch_id payload
  next (record { installed_cpu = cpu; patch_id = patch_id; payload = payload }, c2)

-- What has been printed when the run ends, and how it ends.
unfoldable pub read_patches : List ℕ → Cursor → List Report × End
read_patches [] c = ([], finished)
read_patches (cpu ∷ cpus) c = elim (read_patch cpu c) [
  | stop e ↦ ([], e)
  | next (report, c') ↦ let rest = read_patches cpus c' in (report ∷ rest.0, rest.1)
]

unfoldable pub read_table : Bytes → Step (List ℕ × Cursor)
read_table file = do
  throw_if (length file == 0) empty_file
  throw_if (ltb (length file) outer_size) no_outer_header
  (ohdr, c) ← copy outer_size (record { buffer = file; available_bytes = length file })
  throw_if (not (field 0 ohdr == magic)) wrong_magic
  throw_if (not (field 4 ohdr == 0)) no_equiv_table
  let table_len = field 8 ohdr
  throw_if (not (table_len % entry_size == 0)) wrong_table_length
  read_entries (table_len / entry_size) c

unfoldable pub microcode_main : Bytes → List Report × End
microcode_main file = elim (read_table file) [
  | stop e ↦ ([], e)
  | next (cpus, c) ↦ read_patches cpus c
]
