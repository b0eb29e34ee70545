-- ===== src/Aecram/Driver/Safety.antt =====
-- What every call keeps, whatever the kernel answers: errors and interruptions included.
use tjtools.Common.{
  ℕ, ◌+◌, ◌^◌, ◌≤◌, ◌<◌, ◌≡◌, ◌≢◌, refl, sym, subst, ap, ◌∙◌, not, Option, none, some, ltb, ◌==◌,
  if◌then◌else◌, length, min, arith, ◌⊎◌, inl, inr, Bool-cases,
}
use mathlib.Core.Option.{some-injective}
use tjtools.Aecram.Port.{Controller, AecramConfig, config_default}
use tjtools.Aecram.Port.Memory.{IsController}
use tjtools.Aecram.Driver.{
  Ret, done, overrun, failed, einval, enodev, efault, copy, is_valid_param, AecramRequest,
  AecramSession, Answers, Call, set_type, read, write, unknown, AecramData, aecram_read_buffer,
  Outcome, aecram_unlocked_ioctl, checked, copy_back, read_request, finish, write_request,
}
use tjtools.Aecram.Driver.Buffers.{length-copy}
use tjtools.Aecram.Driver.Loops.{ram, aecram_read_buffer-keeps, aecram_write_buffer-keeps}
use tjtools.Aecram.Driver.Requests.{is_valid_param_iff, at_zero, range-cases}

-- The types of a request's fields.
pub record IsRequest (req : AecramRequest) : Type 0 where
  pub offset_u16 : req.offset < 2 ^ 16
  pub size_u8 : req.size < 2 ^ 8
  pub buffer_size : length req.buffer ≡ 64

abbrev pub IsCall : Call → Type 0
IsCall (set_type _) = Unit
IsCall (read req) = IsRequest req
IsCall (write req) = IsRequest req
IsCall unknown = Unit

-- The only configuration is the default one.
abbrev pub IsSession : AecramSession → Type 0
IsSession s = (s.config ≡ none) ⊎ (s.config ≡ some config_default)

-- The bytes that a call may change: those of a write's range.
abbrev pub IsTarget : Call → ℕ → Type 0
IsTarget (write req) a = (req.offset ≤ a) × (a < req.offset + req.size)
IsTarget _ a = ⊥

module _ (C : Controller) (law : IsController C config_default) where
  abbrev pub Keeps : Call → AecramData C → Outcome C → Type 0
  Keeps call d o =
      (o.ret ≢ overrun)
      × (length o.driver.buffer ≡ 64)
      × IsSession o.session
      × ((a : ℕ) → (ram C law o.driver a ≡ ram C law d a) ⊎ IsTarget call a)

  -- A call that ends at one of the checks changes nothing.
  finish-Keeps :
      (call : Call) (req : AecramRequest) (session : AecramSession) (d : AecramData C) (r : Ret)
      → r ≢ overrun
      → IsSession session
      → length d.buffer ≡ 64
      → Keeps call d (finish C req session (r, d))
  finish-Keeps call req session d r fine s size = (fine, size, s, λ x. inl refl)

  -- The checks behind the one of the configuration.
  passed-Keeps :
      (call : Call) (a : Answers) (req : AecramRequest) (session : AecramSession) (d : AecramData C)
      (o : Outcome C)
      → IsRequest req
      → IsSession session
      → length d.buffer ≡ 64
      → (req.size ≤ 64 → req.offset + req.size ≤ 2 ^ 16 → Keeps call d o)
      → Keeps call d (
          if not a.access_ok
          then finish C req session (failed efault, d)
          else if not (is_valid_param req.offset req.size)
          then finish C req session (failed einval, d)
          else if req.size == 0
          then finish C req session (done, d)
          else o)
  passed-Keeps call a req session d o r s size keeps = elim (Bool-cases a.access_ok) [
    | inr e ↦ rw e (ends (failed efault) (λ x. cc))
    | inl e ↦ rw e (elim (Bool-cases (is_valid_param req.offset req.size)) [
      | inr v ↦ rw v (ends (failed einval) (λ x. cc))
      | inl v ↦ rw v (elim (Bool-cases (req.size == 0)) [
        | inl z ↦ rw z (ends done (λ x. cc))
        | inr z ↦
            let (small, fits, _) =
              (is_valid_param_iff req.offset req.size r.offset_u16 r.size_u8).0 v in
            rw z (keeps small fits)
      ])
    ])
  ]
    where
      ends : (ret : Ret) → ret ≢ overrun → Keeps call d (finish C req session (ret, d))
      ends ret fine = finish-Keeps call req session d ret fine s size

  checked-Keeps :
      (call : Call) (a : Answers) (req : AecramRequest) (c : Option AecramConfig) (d : AecramData C)
      (body : AecramConfig → AecramData C → Outcome C)
      → IsRequest req
      → IsSession (record { config = c })
      → length d.buffer ≡ 64
      → (req.size ≤ 64 → req.offset + req.size ≤ 2 ^ 16 → Keeps call d (body config_default d))
      → Keeps call d (checked C a req (record { config = c }) d body)
  checked-Keeps call a req none d body r s size keeps =
      finish-Keeps call req (record { config = none }) d (failed enodev) (λ x. cc) s size
  checked-Keeps call a req (some cfg) d body r (inl e) size keeps = cc
  checked-Keeps call a req (some cfg) d body r (inr e) size keeps =
      passed-Keeps call a req (record { config = some cfg }) d (body cfg d) r (inr e) size
        λ small fits.
          subst (λ c. Keeps call d (body c d)) (sym (some-injective _ _ e)) (keeps small fits)

  read_request-Keeps :
      (a : Answers) (req : AecramRequest) (session : AecramSession) (d : AecramData C)
      → IsSession session
      → length d.buffer ≡ 64
      → req.size ≤ 64
      → req.offset + req.size ≤ 2 ^ 16
      → Keeps (read req) d (read_request C a req session config_default d)
  read_request-Keeps a req session d s size small fits =
      let r = aecram_read_buffer C config_default a.interrupted req.offset req.size 0 d in
      let (fine, same, sized) =
        aecram_read_buffer-keeps C law a.interrupted req.offset req.size 0 d (omega (arith, size))
          (omega arith) in
      go r fine (λ x. inl (ap (λ m. m x) same)) (sized ∙ size)
    where
      go :
          (r : Ret × AecramData C)
          → r.0 ≢ overrun
          → ((x : ℕ) → (ram C law r.1 x ≡ ram C law d x) ⊎ ⊥)
          → length r.1.buffer ≡ 64
          → Keeps (read req) d (copy_back C a req session r)
      go (done, d') fine same sized = (ground arith, sized, s, same)
      go (overrun, d') fine same sized = absurd (fine refl)
      go (failed e, d') fine same sized = ((λ x. cc), sized, s, same)

  write_request-Keeps :
      (a : Answers) (req : AecramRequest) (session : AecramSession) (d : AecramData C)
      → IsRequest req
      → IsSession session
      → length d.buffer ≡ 64
      → req.size ≤ 64
      → req.offset + req.size ≤ 2 ^ 16
      → Keeps (write req) d (write_request C a req session config_default d)
  write_request-Keeps a req session d r s size small fits =
      let d' : AecramData C = record d {
        buffer = copy (min req.size a.copied) req.buffer d.buffer;
      } in
      let sized =
        length-copy (min req.size a.copied) req.buffer d.buffer (omega (arith, r.buffer_size))
          (omega (arith, size)) in
      let (fine, same, kept) =
        aecram_write_buffer-keeps C law a.interrupted req.offset req.size 0 d'
          (omega (arith, sized, size)) (omega arith) in
      elim (Bool-cases (ltb a.copied req.size)) [
        | inl e ↦ rw e ((λ x. cc), sized ∙ size, s, λ x. inl refl)
        | inr e ↦ rw e (
          fine,
          ap length same ∙ sized ∙ size,
          s,
          λ x. elim (range-cases req.offset req.size x) [
            | inl (out, _) ↦ inl (kept x (at_zero req.offset req.size x out))
            | inr (j, inside, place) ↦ inr (omega (arith, place), omega (arith, place))
          ],
        )
      ]

  -- Whatever the kernel answers, a call with a well-formed request never accesses its buffer outside the
  -- bounds, keeps the size of the buffer and a session with the default configuration or none, and
  -- changes no byte of the RAM but those in the range of a write.
  pub aecram_unlocked_ioctl-Keeps :
      (a : Answers) (call : Call) (session : AecramSession) (d : AecramData C)
      → IsCall call
      → IsSession session
      → length d.buffer ≡ 64
      → Keeps call d (aecram_unlocked_ioctl C a call session d)
  unfolding aecram_unlocked_ioctl
  aecram_unlocked_ioctl-Keeps a (set_type arg) session d r s size = elim (Bool-cases (arg == 1)) [
    | inl e ↦ rw e ((λ x. cc), size, inr refl, λ x. inl refl)
    | inr e ↦ rw e ((λ x. cc), size, s, λ x. inl refl)
  ]
  aecram_unlocked_ioctl-Keeps a (read req) session d r s size =
      checked-Keeps (read req) a req session.config d (read_request C a req session) r s size
        (read_request-Keeps a req session d s size)
  aecram_unlocked_ioctl-Keeps a (write req) session d r s size =
      checked-Keeps (write req) a req session.config d (write_request C a req session) r s size
        (write_request-Keeps a req session d r s size)
  aecram_unlocked_ioctl-Keeps a unknown session d r s size = ((λ x. cc), size, s, λ x. inl refl)
