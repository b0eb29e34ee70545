-- ===== src/Brightness/Sysfs/Lookup.antt =====
-- Which backlight node is chosen.
use tjtools.Common.{
  ◌∙◌, codes, Option-cases, inl, inr, ◌<◌, ℕ, ◌≡◌, refl, ap, Bool, true, false, List, [], ◌∷◌, ◌++◌,
  Option, none, some, Bytes, All, arith,
}
use tjtools.Common.FilePath.{join}
use tjtools.Common.Int.{ℤ}
use tjtools.Text.{stoi}
use tjtools.Brightness.Sysfs.{
  Files, Outcome, defined, undefined, BacklightIdentifier, DirEntry, get_parent_device,
  identify_backlight, ids_match, same_id, hex_id, to_u16, read_sysfs, starts_with, matches,
  first_match, lookup_backlight_node, sysfs_base_path,
}
use tjtools.Brightness.Sysfs.Parent.{Climbs, links, get_parent_device_iff, Climbs-unique}

-- The file shows this id, as a hexadecimal number of 16 bits.
pub record ShowsId (fs : Files) (path : Bytes) (id : ℕ) : Type 0 where
  pub text : Bytes
  pub number : ℤ
  pub reading : read_sysfs fs path ≡ defined (some text)
  pub is_number : stoi 16 text ≡ some number
  pub same : to_u16 number ≡ id

-- A symbolic link with the prefix, on a parent device with both of the ids.
pub record IsMatch (fs : Files) (base : Bytes) (ident : BacklightIdentifier) (entry : DirEntry)
    : Type 0 where
  pub is_link : entry.symlink ≡ true
  pub named : starts_with ident.prefix entry.filename ≡ true
  pub parent : Bytes
  pub climbs : Climbs fs (join base entry.filename) (some parent)
  pub vendor : ShowsId fs (join parent (codes "vendor")) ident.vendor_id
  pub device : ShowsId fs (join parent (codes "device")) ident.device_id

-- The node is that of the first entry that matches.
pub record IsFirst (fs : Files) (fuel : ℕ) (base : Bytes) (ident : BacklightIdentifier)
    (entries : List DirEntry) (node : Bytes) : Type 0 where
  pub before : List DirEntry
  pub entry : DirEntry
  pub behind : List DirEntry
  pub splits : entries ≡ before ++ entry ∷ behind
  pub node_is : node ≡ join base entry.filename
  pub match : IsMatch fs base ident entry
  pub none_before : All (λ e. ¬ IsMatch fs base ident e) before

shown_id :
    (fs : Files) (path : Bytes) (id : ℕ) (o : Option Bytes)
    → read_sysfs fs path ≡ defined o
    → same_id (hex_id o) id ≡ true
    → ShowsId fs path id
shown_id fs path id none r e = absurd (ground arith)
shown_id fs path id (some text) r e = elim (Option-cases (stoi 16 text)) [
  | inl f ↦ absurd (ground (arith, f))
  | inr (n, f) ↦ record {
    text = text;
    number = n;
    reading = r;
    is_number = f;
    same = ground (arith, f);
  }
]

ShowsId-same_id :
    (id : ℕ) (text : Bytes) (n : ℤ)
    → stoi 16 text ≡ some n
    → to_u16 n ≡ id
    → same_id (hex_id (some text)) id ≡ true
ShowsId-same_id id text n f e = ground (arith, f)

ids_match-true :
    (fs : Files) (ident : BacklightIdentifier) (v d : Outcome (Option Bytes))
    → ids_match fs v d ident ≡ defined true
    → (a : Option Bytes) × (b : Option Bytes) × (v ≡ defined a)
      × (d ≡ defined b)
      × (same_id (hex_id a) ident.vendor_id ≡ true)
      × (same_id (hex_id b) ident.device_id ≡ true)
ids_match-true fs ident undefined d e = absurd (ground arith)
ids_match-true fs ident (defined a) undefined e = elim (Option-cases (hex_id a)) [
  | inl f ↦ absurd (ground (arith, f))
  | inr (n, f) ↦ absurd (ground (arith, f))
]
ids_match-true fs ident (defined a) (defined b) e = (a, b, refl, refl, ground arith, ground arith)

-- identify_backlight recognises a device with both ids, and no other.
identify_backlight-ShowsId :
    (fs : Files) (ident : BacklightIdentifier) (parent : Bytes)
    → identify_backlight fs parent ident ≡ defined true
    → ShowsId fs (join parent (codes "vendor")) ident.vendor_id
      × ShowsId fs (join parent (codes "device")) ident.device_id
unfolding identify_backlight
identify_backlight-ShowsId fs ident parent e =
    let (a, b, v, d, x, y) = ids_match-true fs ident _ _ e in
    (shown_id fs _ ident.vendor_id a v x, shown_id fs _ ident.device_id b d y)

IsMatch-identify_backlight :
    (fs : Files) (base : Bytes) (ident : BacklightIdentifier) (entry : DirEntry)
    (m : IsMatch fs base ident entry)
    → identify_backlight fs m.parent ident ≡ defined true
unfolding identify_backlight
IsMatch-identify_backlight fs base ident entry m =
    let v =
      ShowsId-same_id ident.vendor_id m.vendor.text m.vendor.number m.vendor.is_number
        m.vendor.same in
    let d =
      ShowsId-same_id ident.device_id m.device.text m.device.number m.device.is_number
        m.device.same in
    rw (m.vendor.reading, m.device.reading) (rw (v, d) refl)

matches-IsMatch :
    (fs : Files) (fuel : ℕ) (base : Bytes) (ident : BacklightIdentifier) (entry : DirEntry)
    → matches fs fuel base ident entry ≡ some (defined true)
    → IsMatch fs base ident entry
unfolding matches
matches-IsMatch fs fuel base ident entry e = go (get_parent_device fs fuel p) refl
  where
    p : Bytes
    p = join base entry.filename

    go :
        (climbed : Option (Option Bytes))
        → get_parent_device fs fuel p ≡ climbed
        → IsMatch fs base ident entry
    go none c = absurd (ground arith)
    go (some none) c = absurd (ground arith)
    go (some (some parent)) c = record {
      is_link = ground arith;
      named = ground arith;
      parent = parent;
      climbs = ((get_parent_device_iff fs fuel p (some parent)).0 c).0;
      vendor = (identify_backlight-ShowsId fs ident parent (ground arith)).0;
      device = (identify_backlight-ShowsId fs ident parent (ground arith)).1;
    }

-- An entry that is passed over does not match.
passed :
    (fs : Files) (fuel : ℕ) (base : Bytes) (ident : BacklightIdentifier) (entry : DirEntry)
    → matches fs fuel base ident entry ≡ some (defined false)
    → ¬ IsMatch fs base ident entry
unfolding matches
passed fs fuel base ident entry e m = go (get_parent_device fs fuel p) refl
  where
    p : Bytes
    p = join base entry.filename

    link : entry.symlink ≡ true
    link = m.is_link

    prefix : starts_with ident.prefix entry.filename ≡ true
    prefix = m.named

    go : (climbed : Option (Option Bytes)) → get_parent_device fs fuel p ≡ climbed → ⊥
    go none c = absurd (ground arith)
    go (some r) c =
        let same = Climbs-unique ((get_parent_device_iff fs fuel p r).0 c).0 m.climbs in
        let climbed = c ∙ ap some same in
        let identified = IsMatch-identify_backlight fs base ident entry m in absurd (ground arith)

module _ (fs : Files) (fuel : ℕ) (base : Bytes) (ident : BacklightIdentifier) where
  abbrev IsPassed : DirEntry → Type 0
  IsPassed entry = ¬ IsMatch fs base ident entry

  -- The first entry that matches is returned; nothing is, if no entry matches.
  abbrev pub Describes : List DirEntry → Option (Outcome (Option Bytes)) → Type 0
  Describes entries (some (defined (some node))) = IsFirst fs fuel base ident entries node
  Describes entries (some (defined none)) = All IsPassed entries
  Describes entries (some undefined) = Unit
  Describes entries none = Unit

  Describes-cons :
      (entry : DirEntry) (entries : List DirEntry) (r : Option (Outcome (Option Bytes)))
      → IsPassed entry
      → Describes entries r
      → Describes (entry ∷ entries) r
  Describes-cons entry entries (some (defined (some node))) p d = record {
    before = entry ∷ d.before;
    entry = d.entry;
    behind = d.behind;
    splits = ap (◌∷◌ entry) d.splits;
    node_is = d.node_is;
    match = d.match;
    none_before = (p, d.none_before);
  }
  Describes-cons entry entries (some (defined none)) p d = (p, d)
  Describes-cons entry entries (some undefined) p d = tt
  Describes-cons entry entries none p d = tt

  first_match-Describes :
      (entries : List DirEntry) → Describes entries (first_match fs fuel base ident entries)
  unfolding first_match
  first_match-Describes [] = tt
  first_match-Describes (entry ∷ entries) =
      go (matches fs fuel base ident entry) refl (first_match-Describes entries)
    where
      go :
          (m : Option (Outcome Bool))
          → matches fs fuel base ident entry ≡ m
          → Describes entries (first_match fs fuel base ident entries)
          → Describes (entry ∷ entries) (first_match fs fuel base ident (entry ∷ entries))
      go none e d = rw (e, first_match) tt
      go (some undefined) e d = rw (e, first_match) tt
      go (some (defined false)) e d =
          rw (e, first_match) (Describes-cons entry entries _ (passed fs fuel base ident entry e) d)
      go (some (defined true)) e d =
          rw (e, first_match)
            (record {
              before = [];
              entry = entry;
              behind = entries;
              splits = refl;
              node_is = refl;
              match = matches-IsMatch fs fuel base ident entry e;
              none_before = tt;
            })

-- lookup_backlight_node returns the first entry of the directory that is a link with the prefix
-- and whose parent device has both ids, and nullopt only if no entry is one. Where a reading is
-- undefined, or a walk is longer than the fuel, nothing is said.
pub lookup_backlight_node_lem :
    (fs : Files) (fuel : ℕ) (ident : BacklightIdentifier) (entries : List DirEntry)
    → fs.is_directory sysfs_base_path ≡ true
    → Describes fs fuel sysfs_base_path ident entries (lookup_backlight_node fs fuel ident entries)
unfolding lookup_backlight_node
lookup_backlight_node_lem fs fuel ident entries d =
    rw d (first_match-Describes fs fuel sysfs_base_path ident entries)

match-matches :
    (fs : Files) (fuel : ℕ) (base : Bytes) (ident : BacklightIdentifier) (entry : DirEntry)
    (m : IsMatch fs base ident entry)
    → links m.climbs < fuel
    → matches fs fuel base ident entry ≡ some (defined true)
unfolding matches
match-matches fs fuel base ident entry m h =
    let climbed =
      (get_parent_device_iff fs fuel (join base entry.filename) (some m.parent)).1 (m.climbs, h) in
    rw (climbed, m.is_link, m.named, IsMatch-identify_backlight fs base ident entry m)

first_match-split :
    (fs : Files) (fuel : ℕ) (base : Bytes) (ident : BacklightIdentifier) (entry : DirEntry)
    (before behind : List DirEntry)
    → matches fs fuel base ident entry ≡ some (defined true)
    → All (λ e. matches fs fuel base ident e ≡ some (defined false)) before
    → first_match fs fuel base ident (before ++ entry ∷ behind)
      ≡ some (defined (some (join base entry.filename)))
unfolding first_match
first_match-split fs fuel base ident entry [] behind m p = rw (m, first_match)
first_match-split fs fuel base ident entry (e ∷ before) behind m p =
    rw (p.0, first_match) (first_match-split fs fuel base ident entry before behind m p.1)

-- An entry that matches, behind entries that are passed over, is found, given more fuel than the
-- walk from it has links.
pub lookup_backlight_node_finds :
    (fs : Files) (fuel : ℕ) (ident : BacklightIdentifier) (entry : DirEntry)
    (before behind : List DirEntry) (m : IsMatch fs sysfs_base_path ident entry)
    → fs.is_directory sysfs_base_path ≡ true
    → links m.climbs < fuel
    → All (λ e. matches fs fuel sysfs_base_path ident e ≡ some (defined false)) before
    → lookup_backlight_node fs fuel ident (before ++ entry ∷ behind)
      ≡ some (defined (some (join sysfs_base_path entry.filename)))
unfolding lookup_backlight_node
lookup_backlight_node_finds fs fuel ident entry before behind m d h p = rw d (
    first_match-split fs fuel sysfs_base_path ident entry before behind
      (match-matches fs fuel sysfs_base_path ident entry m h) p)
