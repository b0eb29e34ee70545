-- ===== src/AccessBlocker/Blocking.antt =====
-- Which descriptors the hooks of src/access_blocker.c refuse.
use tjtools.Common.{
  ℕ, zero, suc, ◌≡◌, ◌⊎◌, inl, inr, refl, sym, ap, ◌∙◌, true, false, List, [], ◌∷◌, Option, none,
  some, Bytes, codes, ◌==◌, ==_iff, length, replicate, arith, Bool-cases,
}
use tjtools.AccessBlocker.{
  blocked_paths, entry, fill, is_blocked, hook_init, call, unless_blocked, drm_get_version,
  gbm_create_device,
}

-- A path of the list whose inode this is, with inodes for all before it; or a path without an inode,
-- behind which the table holds zeros.
pub data Blocks (stat : Bytes → Option ℕ) (node : ℕ) : List Bytes → Type 0 where
  here :
      {path : Bytes} {paths : List Bytes} → stat path ≡ some node → Blocks stat node (path ∷ paths)
  there :
      {path : Bytes} {paths : List Bytes} (ino : ℕ)
      → stat path ≡ some ino
      → Blocks stat node paths
      → Blocks stat node (path ∷ paths)
  zeros :
      {path : Bytes} {paths : List Bytes}
      → stat path ≡ none
      → node ≡ 0
      → Blocks stat node (path ∷ paths)

is_blocked_zeros : (n node : ℕ) → is_blocked (replicate (suc n) 0) node ≡ (0 == node)
unfolding is_blocked
is_blocked_zeros zero node = ground arith
is_blocked_zeros (suc n) node = ground (arith, is_blocked_zeros n node)

passed :
    (ino node : ℕ) (rest : List ℕ)
    → (ino == node) ≡ false
    → is_blocked (ino ∷ rest) node ≡ true
    → is_blocked rest node ≡ true
unfolding is_blocked
passed ino node rest e h = sym (rw e) ∙ h

first : (node : ℕ) (rest : List ℕ) → is_blocked (node ∷ rest) node ≡ true
unfolding is_blocked
first node rest = ground arith

behind :
    (ino node : ℕ) (rest : List ℕ)
    → is_blocked rest node ≡ true
    → is_blocked (ino ∷ rest) node ≡ true
unfolding is_blocked
behind ino node rest h = ground arith

entry-Blocks :
    (stat : Bytes → Option ℕ) (path : Bytes) (paths : List Bytes) (rest : List ℕ) (node : ℕ)
    (o : Option ℕ)
    → stat path ≡ o
    → (is_blocked rest node ≡ true → Blocks stat node paths)
    → is_blocked (entry o paths rest) node ≡ true
    → Blocks stat node (path ∷ paths)
entry-Blocks stat path paths rest node none e later h =
    zeros e (sym ((==_iff 0 node).0 (sym (is_blocked_zeros (length paths) node) ∙ h)))
entry-Blocks stat path paths rest node (some ino) e later h = elim (Bool-cases (ino == node)) [
  | inl same ↦ here (e ∙ ap some ((==_iff ino node).0 same))
  | inr other ↦ there ino e (later (passed ino node rest other h))
]

fill-Blocks :
    (stat : Bytes → Option ℕ) (paths : List Bytes) (node : ℕ)
    → is_blocked (fill stat paths) node ≡ true
    → Blocks stat node paths
unfolding fill
fill-Blocks stat [] node e = absurd (unfold is_blocked in ground arith)
fill-Blocks stat (path ∷ paths) node e =
    entry-Blocks stat path paths (fill stat paths) node (stat path) refl
      (fill-Blocks stat paths node) e

Blocks-fill :
    (stat : Bytes → Option ℕ) (paths : List Bytes) (node : ℕ)
    → Blocks stat node paths
    → is_blocked (fill stat paths) node ≡ true
unfolding fill
Blocks-fill stat [] node b = elim b [ ]
Blocks-fill stat (path ∷ paths) node (here found) = rw found (first node (fill stat paths))
Blocks-fill stat (path ∷ paths) node (there ino found b) =
    rw found (behind ino node (fill stat paths) (Blocks-fill stat paths node b))
Blocks-fill stat (path ∷ paths) node (zeros missing' z) =
    rw missing' (is_blocked_zeros (length paths) node ∙ (==_iff 0 node).1 (sym z))

block-cases :
    (R : Type 0) (inodes : List ℕ) (o : Option ℕ)
    → ((node : ℕ) × (o ≡ some node)
        × (is_blocked inodes node ≡ true)
        × ((r : Option R) → unless_blocked R inodes o r ≡ none))
      ⊎ ((¬ ((node : ℕ) × (o ≡ some node) × (is_blocked inodes node ≡ true)))
          × ((r : Option R) → unless_blocked R inodes o r ≡ r))
block-cases R inodes none = inr ((λ (node, e, b). absurd (cc)), λ r. refl)
block-cases R inodes (some node) = elim (Bool-cases (is_blocked inodes node)) [
  | inl e ↦ inl (node, refl, e, λ r. rw e refl)
  | inr e ↦ inr ((λ (n, f, b). absurd (ground (arith, e, f, b))), λ r. rw e refl)
]

-- With functions behind the hooks, both of them refuse a descriptor exactly if fstat gives it the inode
-- of one of the two devices that hook_init has found before the first that is missing, or the inode 0
-- when one is missing; and they pass every other descriptor on to those functions.
pub hooks_block_iff :
    (R : Type 0) (dlsym : Bytes → Option (ℕ → R)) (stat : Bytes → Option ℕ) (fstat : ℕ → Option ℕ)
    (real0 real1 : ℕ → R) (fd : ℕ)
    → dlsym (codes "drmGetVersion") ≡ some real0
    → dlsym (codes "gbm_create_device") ≡ some real1
    → let hooks = hook_init R dlsym stat in
      let IsBlocked = (node : ℕ) × (fstat fd ≡ some node) × Blocks stat node blocked_paths in
      (IsBlocked
        × (drm_get_version R hooks fstat fd ≡ none)
        × (gbm_create_device R hooks fstat fd ≡ none))
      ⊎ ((¬ IsBlocked)
          × (drm_get_version R hooks fstat fd ≡ some (real0 fd))
          × (gbm_create_device R hooks fstat fd ≡ some (real1 fd)))
unfolding drm_get_version gbm_create_device hook_init
hooks_block_iff R dlsym stat fstat real0 real1 fd d0 d1 =
    elim (block-cases R (fill stat blocked_paths) (fstat fd)) [
      | inl (node, e, b, refuses) ↦
          inl ((node, e, fill-Blocks stat blocked_paths node b), refuses _, refuses _)
      | inr (other, passes) ↦ inr (
        (λ (node, e, b). other (node, e, Blocks-fill stat blocked_paths node b)),
        passes _ ∙ ap (λ f. call R f fd) d0,
        passes _ ∙ ap (λ f. call R f fd) d1,
      )
    ]
