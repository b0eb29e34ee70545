-- ===== src/Aecram/Driver/Buffers.antt =====
-- The arrays of bytes that the driver reads and writes.
use mathlib.Core.Option.{some-injective}
use tjtools.Common.{
  ℕ, zero, suc, ◌+◌, ◌-◌, ◌≤◌, ◌<◌, ◌≡◌, refl, ap, ◌∙◌, List, [], ◌∷◌, ◌++◌, some, Bytes, ltb, leb,
  ◌==◌, ◌&&◌, if◌then◌else◌, length, get_elem?, get_or, take, drop, arith,
}
use mathlib.Core.Path.{ap₂}
use tjtools.Aecram.Driver.{set, copy}

pub length-set {ℓ} : {A : Type ℓ} (xs : List A) (i : ℕ) (v : A) → length (set xs i v) ≡ length xs
length-set [] i v = refl
length-set (x ∷ xs) zero v = refl
length-set (x ∷ xs) (suc i) v = ap suc (length-set xs i v)

pub get_elem?-set :
    (xs : Bytes) (i : ℕ) (v : ℕ) (j : ℕ)
    → i < length xs
    → get_elem? (set xs i v) j ≡ (if j == i then some v else get_elem? xs j)
get_elem?-set [] i v j h = absurd (omega arith)
get_elem?-set (x ∷ xs) zero v zero h = refl
get_elem?-set (x ∷ xs) zero v (suc j) h = ground arith
get_elem?-set (x ∷ xs) (suc i) v zero h = ground arith
get_elem?-set (x ∷ xs) (suc i) v (suc j) h = get_elem?-set xs i v j (omega arith) ∙ ground arith

pub length-copy :
    (n : ℕ) (from to : Bytes)
    → n ≤ length from
    → n ≤ length to
    → length (copy n from to) ≡ length to
length-copy zero from to h k = refl
length-copy (suc n) [] to h k = absurd (omega arith)
length-copy (suc n) (x ∷ from) [] h k = absurd (omega arith)
length-copy (suc n) (x ∷ from) (y ∷ to) h k =
    ap suc (length-copy n from to (omega arith) (omega arith))

pub get_elem?-copy :
    (n : ℕ) (from to : Bytes) (j : ℕ)
    → n ≤ length from
    → n ≤ length to
    → get_elem? (copy n from to) j ≡ (if ltb j n then get_elem? from j else get_elem? to j)
get_elem?-copy zero from to j h k = ground arith
get_elem?-copy (suc n) [] to j h k = absurd (omega arith)
get_elem?-copy (suc n) (x ∷ from) [] j h k = absurd (omega arith)
get_elem?-copy (suc n) (x ∷ from) (y ∷ to) zero h k = ground arith
get_elem?-copy (suc n) (x ∷ from) (y ∷ to) (suc j) h k =
    get_elem?-copy n from to j (omega arith) (omega arith) ∙ ground arith

pub get_elem?-some : (xs : Bytes) (i : ℕ) → i < length xs → (v : ℕ) × (get_elem? xs i ≡ some v)
get_elem?-some [] i h = absurd (omega arith)
get_elem?-some (x ∷ xs) zero h = (x, refl)
get_elem?-some (x ∷ xs) (suc i) h = get_elem?-some xs i (omega arith)

-- Two arrays with the same elements.
pub get_elem?_ext : (xs ys : Bytes) → ((j : ℕ) → get_elem? xs j ≡ get_elem? ys j) → xs ≡ ys
get_elem?_ext [] [] h = refl
get_elem?_ext [] (y ∷ ys) h = absurd (ground (arith, h 0))
get_elem?_ext (x ∷ xs) [] h = absurd (ground (arith, h 0))
get_elem?_ext (x ∷ xs) (y ∷ ys) h =
    ap₂ ◌∷◌ (some-injective _ _ (h 0)) (get_elem?_ext xs ys (λ j. h (suc j)))

-- `n` bytes of a memory, from an address on.
abbrev pub bytes_at : (ℕ → ℕ) → ℕ → ℕ → Bytes
bytes_at m a zero = []
bytes_at m a (suc n) = m a ∷ bytes_at m (a + 1) n

pub length-bytes_at : (m : ℕ → ℕ) (a n : ℕ) → length (bytes_at m a n) ≡ n
length-bytes_at m a zero = refl
length-bytes_at m a (suc n) = ap suc (length-bytes_at m (a + 1) n)

pub get_elem?-bytes_at :
    (m : ℕ → ℕ) (a n : ℕ) (to : Bytes) (j : ℕ)
    → n ≤ length to
    → get_elem? (bytes_at m a n ++ drop n to) j
      ≡ (if ltb j n then some (m (a + j)) else get_elem? to j)
get_elem?-bytes_at m a zero to j h = ground arith
get_elem?-bytes_at m a (suc n) [] j h = absurd (omega arith)
get_elem?-bytes_at m a (suc n) (x ∷ to) zero h = ground arith
get_elem?-bytes_at m a (suc n) (x ∷ to) (suc j) h =
    let moved : a + 1 + j ≡ a + suc j = omega arith in
    get_elem?-bytes_at m (a + 1) n to j (omega arith) ∙ ground (arith, moved)

-- The memory after `n` bytes of an array have been written to it.
abbrev pub written : (ℕ → ℕ) → ℕ → ℕ → Bytes → ℕ → ℕ
written m offset n bytes a =
    if leb offset a && ltb a (offset + n) then get_or bytes (a - offset) 0 else m a

take-drop_cons :
    (i k : ℕ) (xs : Bytes)
    → i < length xs
    → take (suc k) (drop i xs) ≡ get_or xs i 0 ∷ take k (drop (suc i) xs)
take-drop_cons zero k [] h = absurd (omega arith)
take-drop_cons zero k (x ∷ xs) h = refl
take-drop_cons (suc i) k [] h = absurd (omega arith)
take-drop_cons (suc i) k (x ∷ xs) h = take-drop_cons i k xs (omega arith)

pub get_or-get_elem? : (xs : Bytes) (i v : ℕ) → get_elem? xs i ≡ some v → get_or xs i 0 ≡ v
get_or-get_elem? [] i v e = cc
get_or-get_elem? (x ∷ xs) zero v e = some-injective _ _ e
get_or-get_elem? (x ∷ xs) (suc i) v e = get_or-get_elem? xs i v e

pub written_at :
    (m : ℕ → ℕ) (offset n i : ℕ) (bytes : Bytes)
    → i < n
    → written m offset n bytes (offset + i) ≡ get_or bytes i 0
written_at m offset n i bytes h =
    let index : offset + i - offset ≡ i = omega arith in rw index (ground arith)

bytes_at-written :
    (m : ℕ → ℕ) (offset n i k : ℕ) (bytes : Bytes)
    → i + k ≤ n
    → n ≤ length bytes
    → bytes_at (written m offset n bytes) (offset + i) k ≡ take k (drop i bytes)
bytes_at-written m offset n i zero bytes h l = refl
bytes_at-written m offset n i (suc k) bytes h l =
    let next : offset + i + 1 ≡ offset + suc i = omega arith in
    rw (take-drop_cons i k bytes (omega arith)) (
      ap₂ ◌∷◌ (written_at m offset n i bytes (omega arith)) (
        ap (λ a. bytes_at (written m offset n bytes) a k) next
        ∙ bytes_at-written m offset n (suc i) k bytes (omega arith) l))

pub bytes_at-written_all :
    (m : ℕ → ℕ) (offset n : ℕ) (bytes : Bytes)
    → n ≤ length bytes
    → bytes_at (written m offset n bytes) offset n ≡ take n bytes
bytes_at-written_all m offset n bytes h =
    let start : offset ≡ offset + 0 = omega arith in
    ap (λ a. bytes_at (written m offset n bytes) a n) start
    ∙ bytes_at-written m offset n 0 n bytes (omega arith) h
