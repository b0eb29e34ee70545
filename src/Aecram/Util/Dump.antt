-- ===== src/Aecram/Util/Dump.antt =====
-- The utility and the driver together.
use tjtools.Common.{
  zero, suc, ℕ, ◌+◌, ◌%◌, ◌^◌, ◌≤◌, ◌<◌, ◌≡◌, refl, sym, ap, ◌∙◌, true, false, [], ◌++◌, none, some,
  Bytes, ltb, if◌then◌else◌, length, take, replicate, arith, inl, inr, Bool-cases, take-append,
}
use tjtools.Common.Result.{Result, ok, err}
use tjtools.Aecram.Port.{Controller, config_default}
use tjtools.Aecram.Port.Memory.{IsController}
use tjtools.Aecram.Driver.{
  Answers, AecramSession, read, set_type, AecramRequest, Outcome, Errno, AecramData, aecram_open,
  aecram_unlocked_ioctl, is_valid_param, done, failed, einval,
}
use tjtools.Aecram.Driver.Buffers.{bytes_at, length-bytes_at}
use tjtools.Aecram.Driver.Loops.{ram}
use tjtools.Aecram.Driver.Requests.{IsGranted, configured, ioctl_read, is_valid_param_iff}
use tjtools.Aecram.Util.{
  Kernel, DumpError, invalid_offset, invalid_length, read_failed, unknown_offset, hex_lines,
  dump_request, read_and_print, typed, opened, printed, dump,
}

-- A kernel that has a session and lets the read be carried out.
pub record IsWilling (k : Kernel) : Type 0 where
  pub opens : k.opens ≡ true
  pub allocates : k.allocates ≡ true
  pub accessible : k.at_read.access_ok ≡ true
  pub copies : 64 ≤ k.at_read.copied
  pub free : (j : ℕ) → k.at_read.interrupted j ≡ false

-- The request, with its fields as they are within the limits.
abbrev request : ℕ → ℕ → AecramRequest
request offset n = record { offset = unknown_offset + offset; size = n; buffer = replicate 64 0 }

dump_request-request :
    (offset n : ℕ) → offset ≤ 0x2eff → n ≤ 64 → dump_request offset n ≡ request offset n
dump_request-request offset n h l =
    let start : (unknown_offset + offset) % 2 ^ 16 ≡ unknown_offset + offset = omega arith in
    let size : n % 2 ^ 8 ≡ n = omega arith in rw (start, size)

take_first : (xs ys : Bytes) (n : ℕ) → length xs ≡ n → take n (xs ++ ys) ≡ xs
take_first xs ys n e = ap (λ k. take k (xs ++ ys)) (sym e) ∙ take-append xs ys

abbrev pub within : (ℕ → ℕ) → ℕ → ℕ → Result DumpError Bytes
within m offset n =
    if ltb 0x10000 (unknown_offset + offset + n)
    then err read_failed
    else ok (hex_lines (bytes_at m (unknown_offset + offset) n))

-- What the utility is to print, by the RAM.
abbrev pub dumped : (ℕ → ℕ) → ℕ → ℕ → Result DumpError Bytes
dumped m offset n =
    if ltb 0x2eff offset
    then err invalid_offset
    else if ltb 64 n
    then err invalid_length
    else within m offset n

module _ (C : Controller) (law : IsController C config_default) where
  -- The answer of the driver to the request.
  abbrev answer : Kernel → ℕ → ℕ → AecramData C → Outcome C
  answer k offset n d = aecram_unlocked_ioctl C k.at_read (read (request offset n)) configured d

  answer_empty :
      (k : Kernel) (offset : ℕ) (d : AecramData C)
      → IsWilling k
      → offset ≤ 0x2eff
      → ((answer k offset 0 d).ret ≡ done) × ((answer k offset 0 d).driver ≡ d)
  unfolding aecram_unlocked_ioctl
  answer_empty k offset d w near =
      let valid : is_valid_param (unknown_offset + offset) 0 ≡ true =
        (is_valid_param_iff (unknown_offset + offset) 0 (omega arith) (omega arith)).1
          (omega arith) in
      rw w.accessible (rw valid (refl, refl))

  answer_refused :
      (k : Kernel) (offset n : ℕ) (d : AecramData C)
      → IsWilling k
      → offset ≤ 0x2eff
      → n ≤ 64
      → 0x10000 < unknown_offset + offset + n
      → ((answer k offset n d).ret ≡ failed einval) × ((answer k offset n d).driver ≡ d)
  unfolding aecram_unlocked_ioctl
  answer_refused k offset n d w near short out =
      let iff = is_valid_param_iff (unknown_offset + offset) n (omega arith) (omega arith) in
      elim (Bool-cases (is_valid_param (unknown_offset + offset) n)) [
        | inl valid ↦ absurd (omega (arith, (iff.0 valid).1))
        | inr invalid ↦ rw w.accessible (rw invalid (refl, refl))
      ]

  answer_granted :
      (k : Kernel) (offset n : ℕ) (d : AecramData C)
      → IsWilling k
      → length d.buffer ≡ 64
      → n ≤ 64
      → 0 < n
      → unknown_offset + offset + n ≤ 0x10000
      → ((answer k offset n d).ret ≡ done)
        × (ram C law (answer k offset n d).driver ≡ ram C law d)
        × (take n (answer k offset n d).user ≡ bytes_at (ram C law d) (unknown_offset + offset) n)
  answer_granted k offset n d w size short pos' fits =
      let granted : IsGranted k.at_read (request offset n) = record {
        accessible = w.accessible;
        copies = omega (arith, w.copies);
        free = w.free;
        some_bytes = pos';
        fits_buffer = short;
        fits_ram = fits;
        user_size = refl;
      } in
      let (fine, same, user) = ioctl_read C law k.at_read (request offset n) d granted size in
      (
        fine,
        same,
        ap (take n) user
            ∙ take_first _ _ n (length-bytes_at (ram C law d) (unknown_offset + offset) n),
      )

  print_done :
      (n : ℕ) (o : Outcome C)
      → o.ret ≡ done
      → printed C n o.ret o ≡ (ok (hex_lines (take n o.user)), o.driver)
  print_done n o e = ap (λ r. printed C n r o) e

  print_failed :
      (n : ℕ) (o : Outcome C) (e : Errno)
      → o.ret ≡ failed e
      → printed C n o.ret o ≡ (err read_failed, o.driver)
  print_failed n o e f = ap (λ r. printed C n r o) f

  set_type_lem :
      (a : Answers) (session : AecramSession) (d : AecramData C)
      → aecram_unlocked_ioctl C a (set_type 1) session d
        ≡ record { ret = done; session = configured; driver = d; user = [] }
  unfolding aecram_unlocked_ioctl
  set_type_lem a session d = refl

  opened_read :
      (k : Kernel) (offset n : ℕ) (d : AecramData C)
      → opened C k offset n (some (record { config = none })) d
        ≡ read_and_print C k offset n configured d
  opened_read k offset n d =
      ap (λ o. typed C k offset n o.ret o) (set_type_lem k.at_set_type (record { config = none }) d)

  -- The two calls of ioctl, on a session that has just been opened.
  opened-answer :
      (k : Kernel) (offset n : ℕ) (d : AecramData C)
      → IsWilling k
      → offset ≤ 0x2eff
      → n ≤ 64
      → opened C k offset n (aecram_open k.allocates).1 d
        ≡ printed C n (answer k offset n d).ret (answer k offset n d)
  unfolding aecram_open
  opened-answer k offset n d w near short =
      ap (λ b. opened C k offset n (aecram_open b).1 d) w.allocates
      ∙ opened_read k offset n d
      ∙ ap
          (λ (r : AecramRequest).
            let o = aecram_unlocked_ioctl C k.at_read (read r) configured d in printed C n o.ret o)
          (dump_request-request offset n near short)

  printed-dumped :
      (k : Kernel) (offset n : ℕ) (d : AecramData C)
      → IsWilling k
      → offset ≤ 0x2eff
      → n ≤ 64
      → length d.buffer ≡ 64
      → let r = printed C n (answer k offset n d).ret (answer k offset n d) in
        (r.0 ≡ within (ram C law d) offset n) × (ram C law r.1 ≡ ram C law d)
  printed-dumped k offset zero d w near short size =
      let (fine, same) = answer_empty k offset d w near in
      let small : ltb 0x10000 (unknown_offset + offset + 0) ≡ false = ground arith in
      rw (print_done 0 (answer k offset 0 d) fine) (rw small (refl, ap (ram C law) same))
  printed-dumped k offset (suc n) d w near short size =
      elim (Bool-cases (ltb 0x10000 (unknown_offset + offset + suc n))) [
        | inl out ↦
            let (refused, same) = answer_refused k offset (suc n) d w near short (ground arith) in
            rw (print_failed (suc n) (answer k offset (suc n) d) einval refused)
              (rw out (refl, ap (ram C law) same))
        | inr inside ↦
            let (fine, same, user) =
              answer_granted k offset (suc n) d w size short (omega arith) (ground arith) in
            rw (print_done (suc n) (answer k offset (suc n) d) fine)
              (rw inside (ap (λ u. ok (hex_lines u)) user, same))
      ]

  -- With a kernel that carries out its calls, the utility prints the bytes of the RAM from the offset on,
  -- and fails exactly for an offset or a length outside its limits and for a range that leaves the
  -- address space; the RAM stays as it is.
  pub dump-dumped :
      (k : Kernel) (offset n : ℕ) (d : AecramData C)
      → IsWilling k
      → length d.buffer ≡ 64
      → ((dump C k offset n d).0 ≡ dumped (ram C law d) offset n)
        × (ram C law (dump C k offset n d).1 ≡ ram C law d)
  unfolding dump
  dump-dumped k offset n d w size = elim (Bool-cases (ltb 0x2eff offset)) [
    | inl far ↦ rw far (refl, refl)
    | inr near ↦ rw near (elim (Bool-cases (ltb 64 n)) [
      | inl long ↦ rw long (refl, refl)
      | inr short ↦ rw short (
          simp w.opens (
            rw (opened-answer k offset n d w (ground arith) (ground arith))
              (printed-dumped k offset n d w (ground arith) (ground arith) size)))
    ])
  ]
