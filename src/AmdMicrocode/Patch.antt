-- ===== src/AmdMicrocode/Patch.antt =====
-- One patch of a file: the header, and the payload that the program takes by it.
use tjtools.Common.{
  ℕ, ◌+◌, ◌≤◌, ◌<◌, ◌^◌, ◌≡◌, ◌∙◌, false, ◌++◌, Bytes, length, length-append, take-append,
  drop-append, le32, of_le-le32, arith, ltb,
}
use tjtools.AmdMicrocode.{
  Cursor, ◌>>=◌, next, stop, outside_payload, copy, read_patch, read_patch_id,
}

-- The cursor at the front of these bytes.
abbrev pub cursor : Bytes → Cursor
cursor bytes = record { buffer = bytes; available_bytes = length bytes }

abbrev pub patch_bytes : Bytes → Bytes → Bytes
patch_bytes payload rest = le32 1 ++ (le32 (length payload) ++ (payload ++ rest))

pub copy-append : (xs ys : Bytes) → copy (length xs) (cursor (xs ++ ys)) ≡ next (xs, cursor ys)
unfolding copy
copy-append xs ys = ground (arith, length-append xs ys, take-append xs ys, drop-append xs ys)

copy_header :
    (payload rest : Bytes)
    → copy 8 (cursor (patch_bytes payload rest))
      ≡ next (le32 1 ++ le32 (length payload), cursor (payload ++ rest))
unfolding copy
copy_header payload rest = ground arith

-- A patch whose size fits its word, with 64 bytes left behind the header, is taken whole, and the
-- cursor stands behind it. What the program then prints is read from the payload, whatever its size.
pub read_patch_lem :
    (cpu : ℕ) (payload rest : Bytes)
    → length payload < 2 ^ 32
    → 64 ≤ length payload + length rest
    → read_patch cpu (cursor (patch_bytes payload rest)) ≡ (
        read_patch_id payload >>= λ id.
        next (record { installed_cpu = cpu; patch_id = id; payload = payload }, cursor rest))
unfolding read_patch
read_patch_lem cpu payload rest h b =
    let total = length-append payload rest in
    let short : ltb (length (patch_bytes payload rest)) 8 ≡ false = ground arith in
    let small : ltb (length (payload ++ rest)) 64 ≡ false = ground (arith, total) in
    let cut : ltb (length (payload ++ rest)) (length payload) ≡ false = ground (arith, total) in
    rw (short) (
      rw (copy_header payload rest) (
        rw (small) (rw (of_le-le32 (length payload) h) (rw (cut) (rw (copy-append payload rest))))))

-- The size of a payload is not checked against the field that is printed: of a patch of less than
-- eight bytes, in a file that has the bytes of a header left, the program reads past the end.
pub read_patch_short :
    (cpu : ℕ) (payload rest : Bytes)
    → length payload < 8
    → 64 ≤ length payload + length rest
    → read_patch cpu (cursor (patch_bytes payload rest)) ≡ stop outside_payload
read_patch_short cpu payload rest h b =
    read_patch_lem cpu payload rest (omega arith) b ∙ ground arith
