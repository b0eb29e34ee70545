-- ===== src/Aecram/Driver/Loops.antt =====
-- The loops over the driver's buffer.
use tjtools.Common.{
  ℕ, zero, suc, ◌+◌, ◌%◌, ◌^◌, ◌≤◌, ◌<◌, ◌≡◌, ◌≢◌, refl, ap, ◌∙◌, Bool, true, false, Option, some,
  Bytes, ltb, leb, ◌&&◌, if◌then◌else◌, length, get_elem?, arith, ◌⊎◌, inl, inr, Bool-cases,
}
use native.Mathlib.Decide.{ℕ_discrete}
use tjtools.Aecram.Port.{Controller, config_default, write_locked, read_locked}
use tjtools.Aecram.Driver.Buffers.{length-set, get_elem?-set, get_elem?-some}
use tjtools.Aecram.Port.Memory.{IsController, update, write_locked-update, read_locked_lem}
use tjtools.Aecram.Driver.{
  done, overrun, failed, eintr, set, AecramData, aecram_write, aecram_read, aecram_write_buffer,
  aecram_read_buffer,
}

-- The buffer, with `n` bytes of the RAM from the index on.
abbrev pub filled : (ℕ → ℕ) → ℕ → ℕ → ℕ → Bytes → ℕ → Option ℕ
filled m offset n i buffer j =
    if leb i j && ltb j (i + n) then some (m (offset + j)) else get_elem? buffer j

filled_step :
    (m : ℕ → ℕ) (offset n i v : ℕ) (buffer : Bytes) (j : ℕ)
    → i < length buffer
    → v ≡ m (offset + i)
    → filled m offset n (i + 1) (set buffer i v) j ≡ filled m offset (suc n) i buffer j
filled_step m offset n i v buffer j h e = elim (ℕ_discrete j i) [
  | yes same ↦ rw same (ground (arith, get_elem?-set buffer i v i h))
  | no other ↦ ground (arith, get_elem?-set buffer i v j h)
]

-- An address outside a range of `n` bytes.
abbrev pub IsOutside : ℕ → ℕ → ℕ → Type 0
IsOutside start n a = (a < start) ⊎ (start + n ≤ a)

IsOutside-later :
    (offset i n a : ℕ) → IsOutside (offset + i) (suc n) a → IsOutside (offset + (i + 1)) n a
IsOutside-later offset i n a (inl below) = inl (omega arith)
IsOutside-later offset i n a (inr above) = inr (omega arith)

update_outside :
    (m : ℕ → ℕ) (offset i n v a : ℕ)
    → offset + i < 2 ^ 16
    → IsOutside (offset + i) (suc n) a
    → update m ((offset + i) % 2 ^ 16) v a ≡ m a
update_outside m offset i n v a h (inl below) = ground arith
update_outside m offset i n v a h (inr above) = ground arith

module _ (C : Controller) (law : IsController C config_default) where
  open law use {view}

  abbrev Data : Type 0
  Data = AecramData C

  abbrev pub ram : Data → ℕ → ℕ
  ram d = (view d.aec).ram

  -- The state after a byte is read to the index.
  abbrev read_to : ℕ → ℕ → Data → Data
  read_to offset i d =
      let r = read_locked C config_default ((offset + i) % 2 ^ 16) d.aec in
      record d { aec = r.1; buffer = set d.buffer i r.0 }

  read_round :
      (interrupted : ℕ → Bool) (offset n i : ℕ) (d : Data)
      → i < length d.buffer
      → interrupted i ≡ false
      → aecram_read_buffer C config_default interrupted offset (suc n) i d
        ≡ aecram_read_buffer C config_default interrupted offset n (i + 1) (read_to offset i d)
  unfolding aecram_read_buffer aecram_read
  read_round interrupted offset n i d h e =
      let inside : leb (length d.buffer) i ≡ false = ground arith in rw (e, inside)

  read_interrupted :
      (interrupted : ℕ → Bool) (offset n i : ℕ) (d : Data)
      → interrupted i ≡ true
      → aecram_read_buffer C config_default interrupted offset (suc n) i d ≡ (failed eintr, d)
  unfolding aecram_read_buffer aecram_read
  read_interrupted interrupted offset n i d e = rw e

  -- A loop that stays in the buffer and in the RAM does not overrun, and keeps the RAM.
  pub aecram_read_buffer-keeps :
      (interrupted : ℕ → Bool) (offset n i : ℕ) (d : Data)
      → i + n ≤ length d.buffer
      → offset + i + n ≤ 2 ^ 16
      → let r = aecram_read_buffer C config_default interrupted offset n i d in
        (r.0 ≢ overrun) × (ram r.1 ≡ ram d) × (length r.1.buffer ≡ length d.buffer)
  unfolding aecram_read_buffer
  aecram_read_buffer-keeps interrupted offset zero i d h k = (λ e. cc, refl, refl)
  aecram_read_buffer-keeps interrupted offset (suc n) i d h k = elim (Bool-cases (interrupted i)) [
    | inl e ↦ rw (read_interrupted interrupted offset n i d e) (λ x. cc, refl, refl)
    | inr e ↦
        let d1 = read_to offset i d in
        let size =
          length-set d.buffer i (read_locked C config_default ((offset + i) % 2 ^ 16) d.aec).0 in
        let (fine, same, sized) =
          aecram_read_buffer-keeps interrupted offset n (i + 1) d1 (omega (arith, size))
            (omega arith) in
        let first =
          (read_locked_lem C config_default law ((offset + i) % 2 ^ 16) d.aec (omega arith)).1 in
        rw (read_round interrupted offset n i d (omega arith) e) (fine, same ∙ first, sized ∙ size)
  ]

  -- A loop that is not interrupted fills the buffer with the bytes of the RAM.
  pub aecram_read_buffer-filled :
      (interrupted : ℕ → Bool) (offset n i : ℕ) (d : Data)
      → i + n ≤ length d.buffer
      → offset + i + n ≤ 2 ^ 16
      → ((j : ℕ) → interrupted j ≡ false)
      → let r = aecram_read_buffer C config_default interrupted offset n i d in
        (r.0 ≡ done) × ((j : ℕ) → get_elem? r.1.buffer j ≡ filled (ram d) offset n i d.buffer j)
  unfolding aecram_read_buffer
  aecram_read_buffer-filled interrupted offset zero i d h k free = (refl, λ j. ground arith)
  aecram_read_buffer-filled interrupted offset (suc n) i d h k free =
      let address = (offset + i) % 2 ^ 16 in
      let byte = read_locked C config_default address d.aec in
      let (value, first) = read_locked_lem C config_default law address d.aec (omega arith) in
      let size = length-set d.buffer i byte.0 in
      let (fine, rest) =
        aecram_read_buffer-filled interrupted offset n (i + 1) (read_to offset i d)
          (omega (arith, size)) (omega arith) free in
      let there : address ≡ offset + i = omega arith in
      rw (read_round interrupted offset n i d (omega arith) (free i)) (
        fine,
        λ j.
            rest j
            ∙ ap (λ m. filled m offset n (i + 1) (set d.buffer i byte.0) j) first
            ∙ filled_step (ram d) offset n i byte.0 d.buffer j (omega arith)
                (value ∙ ap (ram d) there),
      )

  write_round :
      (interrupted : ℕ → Bool) (offset n i v : ℕ) (d : Data)
      → get_elem? d.buffer i ≡ some v
      → interrupted i ≡ false
      → aecram_write_buffer C config_default interrupted offset (suc n) i d
        ≡ aecram_write_buffer C config_default interrupted offset n
            (i + 1)
            (record d { aec = write_locked C config_default ((offset + i) % 2 ^ 16) v d.aec })
  unfolding aecram_write_buffer aecram_write
  write_round interrupted offset n i v d g e = rw (g, e)

  write_interrupted :
      (interrupted : ℕ → Bool) (offset n i v : ℕ) (d : Data)
      → get_elem? d.buffer i ≡ some v
      → interrupted i ≡ true
      → aecram_write_buffer C config_default interrupted offset (suc n) i d ≡ (failed eintr, d)
  unfolding aecram_write_buffer aecram_write
  write_interrupted interrupted offset n i v d g e = rw (g, e)

  -- A loop that stays in the buffer does not overrun, keeps the buffer, and changes no byte of the
  -- RAM outside its range.
  pub aecram_write_buffer-keeps :
      (interrupted : ℕ → Bool) (offset n i : ℕ) (d : Data)
      → i + n ≤ length d.buffer
      → offset + i + n ≤ 2 ^ 16
      → let r = aecram_write_buffer C config_default interrupted offset n i d in
        (r.0 ≢ overrun)
        × (r.1.buffer ≡ d.buffer)
        × ((a : ℕ) → IsOutside (offset + i) n a → ram r.1 a ≡ ram d a)
  unfolding aecram_write_buffer
  aecram_write_buffer-keeps interrupted offset zero i d h k = (λ e. cc, refl, λ a o. refl)
  aecram_write_buffer-keeps interrupted offset (suc n) i d h k =
      let (v, g) = get_elem?-some d.buffer i (omega arith) in
      elim (Bool-cases (interrupted i)) [
        | inl e ↦ rw (write_interrupted interrupted offset n i v d g e) (λ x. cc, refl, λ a o. refl)
        | inr e ↦
            let address = (offset + i) % 2 ^ 16 in
            let first = write_locked-update C config_default law address v d.aec (omega arith) in
            let d1 : Data = record d { aec = write_locked C config_default address v d.aec } in
            let (fine, same, rest) =
              aecram_write_buffer-keeps interrupted offset n (i + 1) d1 (omega arith)
                (omega arith) in
            rw (write_round interrupted offset n i v d g e) (
              fine,
              same,
              λ a o.
                  rest a (IsOutside-later offset i n a o)
                  ∙ ap (λ m. m a) first
                  ∙ update_outside (ram d) offset i n v a (omega arith) o,
            )
      ]

  -- A loop that is not interrupted writes the bytes of the buffer.
  pub aecram_write_buffer-patched :
      (interrupted : ℕ → Bool) (offset n i : ℕ) (d : Data)
      → i + n ≤ length d.buffer
      → offset + i + n ≤ 2 ^ 16
      → ((j : ℕ) → interrupted j ≡ false)
      → let r = aecram_write_buffer C config_default interrupted offset n i d in
        (r.0 ≡ done)
        × ((j v : ℕ) → i ≤ j → j < i + n → get_elem? d.buffer j ≡ some v → ram r.1 (offset + j) ≡ v)
  unfolding aecram_write_buffer
  aecram_write_buffer-patched interrupted offset zero i d h k free =
      (refl, λ j v l u g. absurd (omega arith))
  aecram_write_buffer-patched interrupted offset (suc n) i d h k free =
      let (v, g) = get_elem?-some d.buffer i (omega arith) in
      let address = (offset + i) % 2 ^ 16 in
      let first = write_locked-update C config_default law address v d.aec (omega arith) in
      let d1 : Data = record d { aec = write_locked C config_default address v d.aec } in
      let (fine, rest) =
        aecram_write_buffer-patched interrupted offset n (i + 1) d1 (omega arith) (omega arith)
          free in
      let (_, same, kept) =
        aecram_write_buffer-keeps interrupted offset n (i + 1) d1 (omega arith) (omega arith) in
      rw (write_round interrupted offset n i v d g (free i)) (
        fine,
        λ j w l u e. elim (ℕ_discrete j i) [
          | yes at_index ↦
              kept (offset + j) (inl (omega (arith, at_index)))
              ∙ ap (λ m. m (offset + j)) first
              ∙ ground (arith, at_index)
          | no other ↦ rest j w (omega (arith, other)) (omega arith) e
        ],
      )
