-- ===== src/Aecram/Threads/Races.antt =====
-- What the lock of a byte protects, and what it does not.
use tjtools.Common.{
  ℕ, ◌+◌, ◌%◌, ◌^◌, ◌≤◌, ◌<◌, ◌≡◌, refl, ap, ◌∙◌, false, [], ◌∷◌, Bytes, leb, length, take, arith,
}
use tjtools.Aecram.Port.{Controller, config_default, read_locked}
use tjtools.Aecram.Port.Memory.{IsController, read_locked_lem}
use tjtools.Aecram.Driver.{done, set, AecramData, aecram_read}
use tjtools.Aecram.Driver.Requests.{is_valid_param_iff}
use tjtools.Aecram.Driver.Loops.{ram}
use tjtools.Aecram.Threads.{
  Pc, returned, writing, loaded, write_held, write_stored, begin_read, read_lock, read_byte,
  read_unlock, copy_to_user, System, pick, Reach, start, later,
}

first_byte : (xs : Bytes) (v w : ℕ) → 0 < length xs → take 1 (set (set xs 0 v) 0 w) ≡ w ∷ []
first_byte [] v w h = absurd (omega arith)
first_byte (x ∷ xs) v w h = refl

length-set_first : (xs : Bytes) (v : ℕ) → length (set xs 0 v) ≡ length xs
length-set_first [] v = refl
length-set_first (x ∷ xs) v = refl

module _ (C : Controller) (law : IsController C config_default) where
  -- A caller that writes is inside its range, which it may write to.
  abbrev IsFine : (ℕ → ℕ → Type 0) → Pc → Type 0
  IsFine IsAllowed (writing offset size i) =
      IsAllowed offset size × (i ≤ size) × (offset + size ≤ 2 ^ 16)
  IsFine IsAllowed (loaded offset size i val) =
      IsAllowed offset size × (i < size) × (offset + size ≤ 2 ^ 16)
  IsFine IsAllowed (write_held offset size i val) =
      IsAllowed offset size × (i < size) × (offset + size ≤ 2 ^ 16)
  IsFine IsAllowed (write_stored offset size i) =
      IsAllowed offset size × (i < size) × (offset + size ≤ 2 ^ 16)
  IsFine IsAllowed _ = Unit

  -- The state after one byte is read to the front of the buffer.
  abbrev after_read : ℕ → AecramData C → AecramData C
  after_read a d =
      let r = read_locked C config_default ((a + 0) % 2 ^ 16) d.aec in
      record d { aec = r.1; buffer = set d.buffer 0 r.0 }

  read_one :
      (a : ℕ) (d : AecramData C)
      → 0 < length d.buffer
      → aecram_read C config_default false ((a + 0) % 2 ^ 16) 0 d ≡ (done, after_read a d)
  unfolding aecram_read
  read_one a d h = let inside : leb (length d.buffer) 0 ≡ false = ground arith in rw inside

  -- The requests share one buffer, which is copied to the caller after the lock has been released: of
  -- two callers that each read one byte, the first can be given the byte that the second asked for.
  pub returned-race :
      (IsAllowed : ℕ → ℕ → Type 0) (a b : ℕ) (d : AecramData C)
      → a < 2 ^ 16
      → b < 2 ^ 16
      → length d.buffer ≡ 64
      → (s : System C IsAllowed) × Reach C IsAllowed d s
        × (s.pc 0 ≡ returned a 1 (ram C law d b ∷ []))
  returned-race IsAllowed a b d small_a small_b size =
      let valid_a = (is_valid_param_iff a 1 small_a (omega arith)).1 (omega arith) in
      let valid_b = (is_valid_param_iff b 1 small_b (omega arith)).1 (omega arith) in
      let d1 = after_read a d in
      let d2 = after_read b d1 in
      let one : 0 < 1 = omega arith in
      let place : (b + 0) % 2 ^ 16 ≡ b = omega arith in
      let first = (read_locked_lem C config_default law ((a + 0) % 2 ^ 16) d.aec (omega arith)).1 in
      let given =
        (read_locked_lem C config_default law ((b + 0) % 2 ^ 16) d1.aec (omega arith)).0
        ∙ ap (λ m. m ((b + 0) % 2 ^ 16)) first
        ∙ ap (ram C law d) place in
      let filled' =
        length-set_first d.buffer (read_locked C config_default ((a + 0) % 2 ^ 16) d.aec).0 in
      let read_a = read_one a d (omega (arith, size)) in
      let read_b = read_one b d1 (omega (arith, size, filled')) in
      let r1 = later start (pick 0 (begin_read valid_a one)) in
      let r2 = later r1 (pick 0 (read_lock one refl)) in
      let r3 = later r2 (pick 0 (read_byte read_a)) in
      let r4 = later r3 (pick 0 read_unlock) in
      let r5 = later r4 (pick 1 (begin_read valid_b one)) in
      let r6 = later r5 (pick 1 (read_lock one refl)) in
      let r7 = later r6 (pick 1 (read_byte read_b)) in
      let r8 = later r7 (pick 1 read_unlock) in
      let r9 = later r8 (pick 0 (copy_to_user refl)) in
      (
        _,
        r9,
        ap (returned a 1) (first_byte d.buffer _ _ (omega (arith, size)) ∙ ap (λ x. x ∷ []) given),
      )
