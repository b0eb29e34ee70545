-- ===== src/Common/Words.antt =====
-- Machine words in memory: the bytes of an x86-64 host, the lowest first.
use Prim.Native.Nat.{ℕ, ◌+◌, ◌*◌, ◌/◌, ◌%◌, ◌^◌, ◌<◌}
use mathlib.Core.Path.{◌≡◌}
use mathlib.Core.List.{[], ◌∷◌}
use native.Mathlib.Omega.{arith}
use tjtools.Common.Lists.{Bytes, All}

abbrev pub IsByte : ℕ → Type 0
IsByte b = b < 256

-- The bytes of an object representation, read as one number.
abbrev pub of_le : Bytes → ℕ
of_le [] = 0
of_le (b ∷ bs) = b + 256 * of_le bs

-- The object representation of a 32-bit word.
abbrev pub le32 : ℕ → Bytes
le32 n = n % 256 ∷ n / 256 % 256 ∷ n / 65536 % 256 ∷ n / 16777216 % 256 ∷ []

pub of_le-le32 : (n : ℕ) → n < 2 ^ 32 → of_le (le32 n) ≡ n
of_le-le32 n h = omega arith

pub le32-IsByte : (n : ℕ) → All IsByte (le32 n)
le32-IsByte n = omega arith

pub of_le-lt : (a b c d : ℕ) → All IsByte (a ∷ b ∷ c ∷ d ∷ []) → of_le (a ∷ b ∷ c ∷ d ∷ []) < 2 ^ 32
of_le-lt a b c d h = omega arith

-- Four bytes are the representation of the number that they stand for.
pub le32-of_le :
    (a b c d : ℕ)
    → All IsByte (a ∷ b ∷ c ∷ d ∷ [])
    → le32 (of_le (a ∷ b ∷ c ∷ d ∷ [])) ≡ a ∷ b ∷ c ∷ d ∷ []
le32-of_le a b c d h = ground arith
