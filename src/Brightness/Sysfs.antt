-- ===== src/Brightness/Sysfs.antt =====
-- src/brightness_utils/sysfs.h. The file system is a parameter; paths are texts.
pub mod Parent
pub mod Reading
pub mod Lookup
use mathlib.Core.List.{reverse}
use mathlib.Core.Option
use tjtools.Common.{
  ℕ, zero, suc, ◌-◌, ◌%◌, Bool, true, false, ◌&&◌, not, List, [], ◌∷◌, Option, none, some, Bytes,
  codes, ◌==◌, if◌then◌else◌,
}
use tjtools.Common.Int.{ℤ, pos, negsuc}
use tjtools.Common.FilePath.{join}
use tjtools.Text.{isspace, extract, stoi}

-- The calls of the file system. `read` gives the content of a file that can be opened.
pub record Files : Type 0 where
  pub is_regular_file : Bytes → Bool
  pub is_symlink : Bytes → Bool
  pub is_directory : Bytes → Bool
  pub read : Bytes → Option Bytes

-- A result that may be undefined behaviour.
pub data Outcome {ℓ} (A : Type ℓ) : Type ℓ where
  defined : A → Outcome A
  undefined : Outcome A

-- The loop over the reverse iterator: it has no end test, and reads before the text if all of the
-- text is white.
unfoldable pub skip_reversed : Bytes → Outcome Bytes
skip_reversed [] = undefined
skip_reversed (c ∷ rest) =
    let later = skip_reversed rest in if isspace c then later else defined (c ∷ rest)

abbrev pub map_outcome {ℓ κ} : {A : Type ℓ} {B : Type κ} → (A → B) → Outcome A → Outcome B
map_outcome f (defined a) = defined (f a)
map_outcome f undefined = undefined

unfoldable pub rstrip : Bytes → Outcome Bytes
rstrip input = map_outcome reverse (skip_reversed (reverse input))

-- `none` is std::nullopt.
abbrev pub strip_read : Option Bytes → Outcome (Option Bytes)
strip_read none = defined none
strip_read (some content) = map_outcome some (rstrip (extract content))

abbrev pub device : Bytes
device = codes "device"

-- The conversion of an int to a std::uint16_t.
abbrev pub to_u16 : ℤ → ℕ
to_u16 (pos n) = n % 65536
to_u16 (negsuc n) = 65535 - n % 65536

-- stoi(value(), nullptr, 16): `none` is an exception.
abbrev pub hex_id : Option Bytes → Option ℕ
hex_id none = none
hex_id (some text) = Option.map to_u16 (stoi 16 text)

pub record BacklightIdentifier : Type 0 where
  pub prefix : Bytes
  pub vendor_id : ℕ
  pub device_id : ℕ

abbrev pub same_id : Option ℕ → ℕ → Bool
same_id none id = false
same_id (some n) id = n == id

-- rfind(prefix, 0) == 0
unfoldable pub starts_with : Bytes → Bytes → Bool
starts_with [] text = true
starts_with (_ ∷ _) [] = false
starts_with (p ∷ prefix) (c ∷ text) = p == c && starts_with prefix text

pub record DirEntry : Type 0 where
  pub filename : Bytes
  pub symlink : Bool

abbrev pub sysfs_base_path : Bytes
sysfs_base_path = codes "/sys/class/backlight"

module _ (fs : Files) where
  unfoldable pub is_parent_device : Bytes → Bool
  is_parent_device path =
      fs.is_regular_file (join path (codes "class"))
      && fs.is_regular_file (join path (codes "vendor"))
      && fs.is_regular_file (join path device)

  -- The loop, with a bound on the links that it follows: the outer `none` is reached only if there
  -- are more.
  unfoldable pub get_parent_device : ℕ → Bytes → Option (Option Bytes)
  get_parent_device zero current_path = none
  get_parent_device (suc fuel) current_path =
      let next_path = join current_path device in
      let next = get_parent_device fuel next_path in
      if is_parent_device current_path
      then some (some current_path)
      else if not (fs.is_symlink next_path)
      then some none
      else next

  unfoldable pub read_sysfs : Bytes → Outcome (Option Bytes)
  read_sysfs path = strip_read (fs.read path)

  abbrev pub ids_match :
      Outcome (Option Bytes) → Outcome (Option Bytes) → BacklightIdentifier → Outcome Bool
  ids_match undefined _ ident = undefined
  ids_match (defined vendor) undefined ident = elim (hex_id vendor) [
    | none ↦ defined false
    | some _ ↦ undefined
  ]
  ids_match (defined vendor) (defined dev) ident =
      defined (same_id (hex_id vendor) ident.vendor_id && same_id (hex_id dev) ident.device_id)

  unfoldable pub identify_backlight : Bytes → BacklightIdentifier → Outcome Bool
  identify_backlight path ident =
      ids_match (read_sysfs (join path (codes "vendor"))) (read_sysfs (join path device)) ident

  -- One round of the loop over the directory: does the entry match? The outer `none` is a walk that
  -- does not end.
  unfoldable pub matches : ℕ → Bytes → BacklightIdentifier → DirEntry → Option (Outcome Bool)
  matches fuel base ident entry =
      let p = join base entry.filename in
      let climbed = get_parent_device fuel p in
      let identified = λ (parent : Bytes). identify_backlight parent ident in
      if not entry.symlink
      then some (defined false)
      else if not (starts_with ident.prefix entry.filename)
      then some (defined false)
      else elim climbed [
        | none ↦ none
        | some none ↦ some (defined false)
        | some (some parent) ↦ some (identified parent)
      ]

  unfoldable pub first_match :
      ℕ → Bytes → BacklightIdentifier → List DirEntry → Option (Outcome (Option Bytes))
  first_match fuel base ident [] = some (defined none)
  first_match fuel base ident (entry ∷ rest) =
      let later = first_match fuel base ident rest in
      elim (matches fuel base ident entry) [
        | none ↦ none
        | some undefined ↦ some undefined
        | some (defined true) ↦ some (defined (some (join base entry.filename)))
        | some (defined false) ↦ later
      ]

  unfoldable pub lookup_backlight_node :
      ℕ → BacklightIdentifier → List DirEntry → Option (Outcome (Option Bytes))
  lookup_backlight_node fuel ident entries =
      let found = first_match fuel sysfs_base_path ident entries in
      if not (fs.is_directory sysfs_base_path) then some (defined none) else found
