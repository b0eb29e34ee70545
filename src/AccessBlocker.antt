-- ===== src/AccessBlocker.antt =====
-- src/access_blocker.c: a preloaded library that hides two devices. What stat, fstat and dlsym give is a
-- parameter, and so are the functions behind the hooks; `none` is a failure or a null pointer.
pub mod Blocking
use tjtools.Common.{
  ℕ, suc, Bool, true, false, List, [], ◌∷◌, Option, none, some, Bytes, codes, ◌==◌, if◌then◌else◌,
  length, replicate,
}

abbrev pub blocked_paths : List Bytes
blocked_paths = codes "/dev/dri/card0" ∷ codes "/dev/dri/renderD128" ∷ []

-- The entry of a path, and those behind it: the loop is left at a path that is missing.
abbrev pub entry : Option ℕ → List Bytes → List ℕ → List ℕ
entry none paths rest = replicate (suc (length paths)) 0
entry (some ino) paths rest = ino ∷ rest

-- The table has an entry for each path; those that are not set are zero.
unfoldable pub fill : (Bytes → Option ℕ) → List Bytes → List ℕ
fill stat [] = []
fill stat (path ∷ paths) = entry (stat path) paths (fill stat paths)

-- __is_blocked
unfoldable pub is_blocked : List ℕ → ℕ → Bool
is_blocked [] node = false
is_blocked (ino ∷ inodes) node =
    let later = is_blocked inodes node in if ino == node then true else later

module _ (R : Type 0) where
  -- The functions behind the hooks, and the table of inodes.
  pub record Hooks : Type 0 where
    pub real_func0 : Option (ℕ → R)
    pub real_func1 : Option (ℕ → R)
    pub blocked_inodes : List ℕ

  unfoldable pub hook_init : (Bytes → Option (ℕ → R)) → (Bytes → Option ℕ) → Hooks
  hook_init dlsym stat = record {
    real_func0 = dlsym (codes "drmGetVersion");
    real_func1 = dlsym (codes "gbm_create_device");
    blocked_inodes = fill stat blocked_paths;
  }

  -- Nothing, or what the function behind the hook returns: `none` is the null pointer of the hook's own.
  abbrev pub call : Option (ℕ → R) → ℕ → Option R
  call none fd = none
  call (some real) fd = some (real fd)

  -- The lines that both hooks share. Without an answer of fstat nothing is blocked.
  abbrev pub unless_blocked : List ℕ → Option ℕ → Option R → Option R
  unless_blocked inodes none result = result
  unless_blocked inodes (some node) result = if is_blocked inodes node then none else result

  unfoldable pub drm_get_version : Hooks → (ℕ → Option ℕ) → ℕ → Option R
  drm_get_version hooks fstat fd =
      unless_blocked hooks.blocked_inodes (fstat fd) (call hooks.real_func0 fd)

  unfoldable pub gbm_create_device : Hooks → (ℕ → Option ℕ) → ℕ → Option R
  gbm_create_device hooks fstat fd =
      unless_blocked hooks.blocked_inodes (fstat fd) (call hooks.real_func1 fd)
