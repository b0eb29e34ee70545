-- ===== src/Aecram/Driver/Requests.antt =====
-- Whole requests against a memory: what a caller gets, what is written, and what stays.
use mathlib.Core.Path.{fun_ext}
use tjtools.Common.{
  ℕ, ◌+◌, ◌-◌, ◌^◌, ◌≤◌, ◌<◌, ◌≡◌, ◌↔◌, refl, sym, ap, ◌∙◌, Bool, true, false, ◌++◌, some, ltb, leb,
  ◌==◌, ◌&&◌, length, drop, min, arith, ◌⊎◌, inl, inr, Bool-cases,
}
use tjtools.Aecram.Port.{Controller, AecramConfig, config_default}
use tjtools.Aecram.Port.Memory.{IsController}
use tjtools.Aecram.Driver.{
  Ret, done, overrun, failed, copy, is_valid_param, AecramRequest, AecramSession, Answers, read,
  write, AecramData, aecram_write_buffer, aecram_read_buffer, Outcome, aecram_unlocked_ioctl,
  checked, copy_back, read_request, write_request,
}
use tjtools.Aecram.Driver.Buffers.{
  length-copy, get_elem?-copy, get_elem?-some, get_elem?_ext, bytes_at, get_elem?-bytes_at, written,
  bytes_at-written_all, written_at, get_or-get_elem?,
}
use tjtools.Aecram.Driver.Loops.{
  ram, IsOutside, aecram_read_buffer-keeps, aecram_read_buffer-filled, aecram_write_buffer-keeps,
  aecram_write_buffer-patched,
}

-- The test accepts the ranges that fit the buffer and the address space, but for the empty range at the
-- offset zero, which it refuses, other than the empty ranges at all other offsets.
pub is_valid_param_iff :
    (offset size : ℕ)
    → offset < 2 ^ 16
    → size < 2 ^ 8
    → (is_valid_param offset size ≡ true)
      ↔ ((size ≤ 64) × (offset + size ≤ 2 ^ 16) × (0 < offset + size))
unfolding is_valid_param
is_valid_param_iff offset size h k = (λ e. ground arith, λ x. ground arith)

-- A request that the driver carries out: the answers of the kernel let it, and the range is not empty.
pub record IsGranted (a : Answers) (req : AecramRequest) : Type 0 where
  pub accessible : a.access_ok ≡ true
  pub copies : req.size ≤ a.copied
  pub free : (j : ℕ) → a.interrupted j ≡ false
  pub some_bytes : 0 < req.size
  pub fits_buffer : req.size ≤ 64
  pub fits_ram : req.offset + req.size ≤ 2 ^ 16
  pub user_size : length req.buffer ≡ 64

abbrev pub configured : AecramSession
configured = record { config = some config_default }

-- An address outside a range, with what `written` leaves there, or the place inside it.
pub range-cases :
    (offset n a : ℕ)
    → ((IsOutside offset n a) × ((leb offset a && ltb a (offset + n)) ≡ false))
      ⊎ ((j : ℕ) × (j < n) × (a ≡ offset + j))
range-cases offset n a = elim (Bool-cases (leb offset a && ltb a (offset + n))) [
  | inl e ↦ inr (a - offset, ground arith, ground arith)
  | inr e ↦ inl (ground arith, e)
]

pub at_zero : (offset n a : ℕ) → IsOutside offset n a → IsOutside (offset + 0) n a
at_zero offset n a (inl below) = inl (omega arith)
at_zero offset n a (inr above) = inr (omega arith)

module _ (C : Controller) where
  checked_granted :
      (a : Answers) (req : AecramRequest) (d : AecramData C)
      (body : AecramConfig → AecramData C → Outcome C)
      → IsGranted a req
      → checked C a req configured d body ≡ body config_default d
  checked_granted a req d body g =
      let valid : is_valid_param req.offset req.size ≡ true =
        (is_valid_param_iff req.offset req.size (ground (arith, g.some_bytes, g.fits_ram))
            (ground (arith, g.fits_buffer))).1
          (g.fits_buffer, g.fits_ram, ground (arith, g.some_bytes)) in
      let filled' : (req.size == 0) ≡ false = ground (arith, g.some_bytes) in
      rw (g.accessible) (rw valid (rw filled'))

  copy_back_done :
      (a : Answers) (req : AecramRequest) (session : AecramSession) (r : Ret × AecramData C)
      → r.0 ≡ done
      → req.size ≤ a.copied
      → copy_back C a req session r ≡ record {
        ret = done;
        session = session;
        driver = r.1;
        user = copy req.size r.1.buffer req.buffer;
      }
  copy_back_done a req session (done, d) e h = ground arith
  copy_back_done a req session (overrun, d) e h = cc
  copy_back_done a req session (failed _, d) e h = cc

module _ (C : Controller) (law : IsController C config_default) where
  copied_bytes :
      (req : AecramRequest) (interrupted : ℕ → Bool) (d : AecramData C)
      → req.offset + req.size ≤ 2 ^ 16
      → req.size ≤ 64
      → length d.buffer ≡ 64
      → length req.buffer ≡ 64
      → ((j : ℕ) → interrupted j ≡ false)
      → copy req.size
          (aecram_read_buffer C config_default interrupted req.offset req.size 0 d).1.buffer
          req.buffer
        ≡ bytes_at (ram C law d) req.offset req.size ++ drop req.size req.buffer
  copied_bytes req interrupted d fits small size user free =
      let (_, same, sized) =
        aecram_read_buffer-keeps C law interrupted req.offset req.size 0 d (omega (arith, size))
          (omega arith) in
      let (_, content) =
        aecram_read_buffer-filled C law interrupted req.offset req.size 0 d (omega (arith, size))
          (omega arith) free in
      get_elem?_ext _ _ λ j.
        get_elem?-copy req.size _ req.buffer j (omega (arith, sized, size)) (omega (arith, user))
        ∙ ground (arith, content j)
        ∙ sym (
            get_elem?-bytes_at (ram C law d) req.offset req.size req.buffer j (omega (arith, user)))

  -- A granted read gives the caller the bytes of the RAM at the offset, and keeps the RAM.
  pub ioctl_read :
      (a : Answers) (req : AecramRequest) (d : AecramData C)
      → IsGranted a req
      → length d.buffer ≡ 64
      → let o = aecram_unlocked_ioctl C a (read req) configured d in
        (o.ret ≡ done)
        × (ram C law o.driver ≡ ram C law d)
        × (o.user ≡ bytes_at (ram C law d) req.offset req.size ++ drop req.size req.buffer)
  unfolding aecram_unlocked_ioctl
  ioctl_read a req d g size =
      let r = aecram_read_buffer C config_default a.interrupted req.offset req.size 0 d in
      let (_, same, sized) =
        aecram_read_buffer-keeps C law a.interrupted req.offset req.size 0 d
          (omega (arith, size, g.fits_buffer)) (omega (arith, g.fits_ram)) in
      let (fine, _) =
        aecram_read_buffer-filled C law a.interrupted req.offset req.size 0 d
          (omega (arith, size, g.fits_buffer)) (omega (arith, g.fits_ram)) g.free in
      rw (checked_granted C a req d (read_request C a req configured) g) (
        rw (copy_back_done C a req configured r fine g.copies) (
          refl,
          same,
          copied_bytes req a.interrupted d g.fits_ram g.fits_buffer size g.user_size g.free,
        ))

  -- The state in which the loop of a granted write starts.
  abbrev loaded : AecramRequest → AecramData C → AecramData C
  loaded req d = record d { buffer = copy req.size req.buffer d.buffer }

  loaded_ram :
      (req : AecramRequest) (interrupted : ℕ → Bool) (d : AecramData C)
      → req.offset + req.size ≤ 2 ^ 16
      → req.size ≤ 64
      → length d.buffer ≡ 64
      → length req.buffer ≡ 64
      → ((j : ℕ) → interrupted j ≡ false)
      → ram C law
          (aecram_write_buffer C config_default interrupted req.offset req.size 0 (loaded req d)).1
        ≡ written (ram C law d) req.offset req.size req.buffer
  loaded_ram req interrupted d fits small size user free =
      let sized =
        length-copy req.size req.buffer d.buffer (omega (arith, user)) (omega (arith, size)) in
      let (_, _, kept) =
        aecram_write_buffer-keeps C law interrupted req.offset req.size 0 (loaded req d)
          (omega (arith, sized, size)) (omega arith) in
      let (_, patched) =
        aecram_write_buffer-patched C law interrupted req.offset req.size 0 (loaded req d)
          (omega (arith, sized, size)) (omega arith) free in
      fun_ext λ a. elim (range-cases req.offset req.size a) [
        | inl (out, e) ↦ kept a (at_zero req.offset req.size a out) ∙ rw e
        | inr (j, inside, place) ↦
            let (v, found) = get_elem?-some req.buffer j (omega (arith, user)) in
            let moved =
              get_elem?-copy req.size req.buffer d.buffer j (omega (arith, user))
                (omega (arith, size)) in
            rw place (
              patched j v (omega arith) (omega arith) (ground (arith, moved))
              ∙ sym (get_or-get_elem? req.buffer j v found)
              ∙ sym (written_at (ram C law d) req.offset req.size j req.buffer inside))
      ]

  -- A granted write puts the bytes of the caller into the RAM at the offset, and changes no other.
  pub ioctl_write :
      (a : Answers) (req : AecramRequest) (d : AecramData C)
      → IsGranted a req
      → length d.buffer ≡ 64
      → let o = aecram_unlocked_ioctl C a (write req) configured d in
        (o.ret ≡ done)
        × (ram C law o.driver ≡ written (ram C law d) req.offset req.size req.buffer)
        × (length o.driver.buffer ≡ 64)
  unfolding aecram_unlocked_ioctl
  ioctl_write a req d g size =
      let small : min req.size a.copied ≡ req.size = ground (arith, g.copies) in
      let enough : ltb a.copied req.size ≡ false = ground (arith, g.copies) in
      let sized =
        length-copy req.size req.buffer d.buffer (omega (arith, g.user_size, g.fits_buffer))
          (omega (arith, size, g.fits_buffer)) in
      let (_, same, _) =
        aecram_write_buffer-keeps C law a.interrupted req.offset req.size 0 (loaded req d)
          (omega (arith, sized, size, g.fits_buffer)) (omega (arith, g.fits_ram)) in
      let (fine, _) =
        aecram_write_buffer-patched C law a.interrupted req.offset req.size 0 (loaded req d)
          (omega (arith, sized, size, g.fits_buffer)) (omega (arith, g.fits_ram)) g.free in
      let result =
        loaded_ram req a.interrupted d g.fits_ram g.fits_buffer size g.user_size g.free in
      rw (checked_granted C a req d (write_request C a req configured) g)
        (rw enough (rw small (fine, result, ap length same ∙ sized ∙ size)))

  -- A granted read behind a granted write of the same range gives the caller the bytes that were
  -- written.
  pub ioctl_read-ioctl_write :
      (a b : Answers) (req later : AecramRequest) (d : AecramData C)
      → IsGranted a req
      → IsGranted b later
      → length d.buffer ≡ 64
      → later.offset ≡ req.offset
      → later.size ≡ req.size
      → let w = aecram_unlocked_ioctl C a (write req) configured d in
        let r = aecram_unlocked_ioctl C b (read later) configured w.driver in
        (r.ret ≡ done) × (r.user ≡ copy req.size req.buffer later.buffer)
  ioctl_read-ioctl_write a b req later d g h size same_offset same_size =
      let (_, patched, sized) = ioctl_write a req d g size in
      let w = aecram_unlocked_ioctl C a (write req) configured d in
      let (fine, _, user) = ioctl_read b later w.driver h sized in
      (
        fine,
        user
            ∙ rw (patched, same_offset, same_size)
                (ap (λ xs. xs ++ drop req.size later.buffer)
                  (bytes_at-written_all (ram C law d) req.offset req.size req.buffer
                    (omega (arith, g.user_size, g.fits_buffer)))),
      )
