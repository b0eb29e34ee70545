-- ===== src/SpeedControl/Descriptor.antt =====
-- The descriptor that the drive gets.
use tjtools.Common.{
  ℕ, ◌-◌, ◌*◌, ◌/◌, ◌%◌, ◌<◌, ◌^◌, ◌≡◌, [], ◌∷◌, ◌++◌, Bytes, arith, le32, le32-of_le, ◌==◌,
  if◌then◌else◌,
}
use tjtools.SpeedControl.{max_speed, streaming, bswap32, descriptor_bytes}

-- The representation of a word with its highest byte first.
abbrev pub be32 : ℕ → Bytes
be32 n = n / 16777216 % 256 ∷ n / 65536 % 256 ∷ n / 256 % 256 ∷ n % 256 ∷ []

le32-bswap32 : (n : ℕ) → le32 (bswap32 n) ≡ be32 n
unfolding bswap32
le32-bswap32 n =
    le32-of_le (n / 16777216 % 256) (n / 65536 % 256) (n / 256 % 256) (n % 256) (omega arith)

-- What the drive is to be told: the range of all blocks, and 177 kilobytes a second for each unit
-- of speed, in big-endian words; speed zero restores its defaults.
abbrev pub wanted : ℕ → Bytes
wanted speed =
    (if speed == 0 then 4 else 0)
    ∷ 0
    ∷ 0
    ∷ 0
    ∷ (le32 0
        ++ (be32 (2 ^ 32 - 1)
            ++ (be32 (177 * speed) ++ (be32 1000 ++ (be32 (177 * speed) ++ be32 1000)))))

pub streaming-wanted :
    (op speed : ℕ)
    → speed < max_speed
    → descriptor_bytes (streaming op speed).perf_desc ≡ wanted speed
streaming-wanted op speed h =
    let size : speed * 177 % 2 ^ 32 ≡ 177 * speed = omega arith in
    ground (
      arith,
      size,
      le32-bswap32 (2 ^ 32 - 1),
      le32-bswap32 (speed * 177 % 2 ^ 32),
      le32-bswap32 1000,
    )
