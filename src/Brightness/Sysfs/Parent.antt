-- ===== src/Brightness/Sysfs/Parent.antt =====
-- The walk from a backlight node to the device that it belongs to.
use tjtools.Common.{
  ◌↔◌, ◌+◌, sym, ◌∙◌, ℕ, zero, suc, ◌<◌, ◌≡◌, true, false, Option, none, some, Bytes, inl, inr,
  Bool-cases, arith, subst,
}
use mathlib.Core.Option.{some-injective}
use tjtools.Common.FilePath.{join}
use tjtools.Brightness.Sysfs.{Files, is_parent_device, get_parent_device, device}

-- The specification: the first parent device along the chain of `device` links, if there is one.
pub data Climbs (fs : Files) : Bytes → Option Bytes → Type 0 where
  found : {path : Bytes} → is_parent_device fs path ≡ true → Climbs fs path (some path)
  stopped :
      {path : Bytes}
      → is_parent_device fs path ≡ false
      → fs.is_symlink (join path device) ≡ false
      → Climbs fs path none
  up :
      {path : Bytes} {result : Option Bytes}
      → is_parent_device fs path ≡ false
      → fs.is_symlink (join path device) ≡ true
      → Climbs fs (join path device) result
      → Climbs fs path result

-- The links that the walk follows.
abbrev pub links : {fs : Files} {path : Bytes} {result : Option Bytes} → Climbs fs path result → ℕ
links (found _) = 0
links (stopped _ _) = 0
links (up _ _ c) = suc (links c)

-- A walk of fewer links than the fuel.
abbrev pub ClimbsWithin : Files → ℕ → Bytes → Option Bytes → Type 0
ClimbsWithin fs fuel path result = (c : Climbs fs path result) × (links c < fuel)

get_parent_device-Climbs :
    (fs : Files) (fuel : ℕ) (path : Bytes) (result : Option Bytes)
    → get_parent_device fs fuel path ≡ some result
    → ClimbsWithin fs fuel path result
unfolding get_parent_device
get_parent_device-Climbs fs zero path result e = cc
get_parent_device-Climbs fs (suc fuel) path result e =
    elim (Bool-cases (is_parent_device fs path)) [
      | inl p ↦
          subst (ClimbsWithin fs (suc fuel) path) (some-injective _ _ (rw p at e))
            (found p, omega arith)
      | inr p ↦ elim (Bool-cases (fs.is_symlink (join path device))) [
        | inl s ↦
            let (c, h) =
              get_parent_device-Climbs fs fuel (join path device) result (rw (p, s) at e) in
            (up p s c, omega (arith, h))
        | inr s ↦
            subst (ClimbsWithin fs (suc fuel) path) (some-injective _ _ (rw (p, s) at e))
              (stopped p s, omega arith)
      ]
    ]

Climbs-get_parent_device :
    (fs : Files) (fuel : ℕ) {path : Bytes} {result : Option Bytes} (c : Climbs fs path result)
    → links c < fuel
    → get_parent_device fs fuel path ≡ some result
unfolding get_parent_device
Climbs-get_parent_device fs zero c h = absurd (omega arith)
Climbs-get_parent_device fs (suc fuel) (found p) h = ground arith
Climbs-get_parent_device fs (suc fuel) (stopped p s) h = ground arith
Climbs-get_parent_device fs (suc fuel) (up p s c) h =
    ground (arith, Climbs-get_parent_device fs fuel c (omega arith))

-- The walk returns a result exactly if it has to: the first parent device that the links lead to,
-- or nothing if they end before one, given more fuel than links.
pub get_parent_device_iff :
    (fs : Files) (fuel : ℕ) (path : Bytes) (result : Option Bytes)
    → (get_parent_device fs fuel path ≡ some result)
      ↔ ((c : Climbs fs path result) × (links c < fuel))
get_parent_device_iff fs fuel path result =
    (get_parent_device-Climbs fs fuel path result, λ x. Climbs-get_parent_device fs fuel x.0 x.1)

-- There is one walk.
pub Climbs-unique :
    {fs : Files} {path : Bytes} {r r' : Option Bytes}
    → Climbs fs path r
    → Climbs fs path r'
    → r ≡ r'
Climbs-unique {fs} {path} {r} {r'} c c' =
    let fuel = suc (links c + links c') in
    some-injective _ _ (
      sym ((get_parent_device_iff fs fuel path r).1 (c, omega arith))
      ∙ (get_parent_device_iff fs fuel path r').1 (c', omega arith))
