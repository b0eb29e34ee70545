-- ===== src/Aecram/Driver.antt =====
-- The file operations of aecram/driver/driver.c, one call at a time. The answers of the kernel, and the
-- memory of the caller, are parameters.
pub mod Buffers
pub mod Loops
pub mod Requests
pub mod Safety
use tjtools.Common.{
  ℕ, zero, suc, ◌+◌, ◌-◌, ◌%◌, ◌^◌, Bool, true, false, not, List, [], ◌∷◌, ◌++◌, Option, none, some,
  Bytes, ltb, leb, ◌==◌, if◌then◌else◌, length, get_elem?, take, drop, min,
}
use tjtools.Aecram.Port.{Controller, AecramConfig, config_default, write_locked, read_locked}

pub data Errno : Type 0 where
  enomem eintr enodev efault einval : Errno

-- `overrun` is an access outside the buffer of the driver.
pub data Ret : Type 0 where
  done overrun : Ret
  failed : Errno → Ret

-- AECRAM_BUFFER_SIZE
abbrev pub aecram_buffer_size : ℕ
aecram_buffer_size = 64

-- A write at an index of an array; outside it changes nothing.
abbrev pub set {ℓ} : {A : Type ℓ} → List A → ℕ → A → List A
set [] i v = []
set (x ∷ xs) zero v = v ∷ xs
set (x ∷ xs) (suc i) v = x ∷ set xs i v

-- Of a copy between two arrays, the first `n` bytes are done.
abbrev pub copy : ℕ → Bytes → Bytes → Bytes
copy n from to = take n from ++ drop n to

-- In unsigned arithmetic: no offset and no length make the sum wrap around.
unfoldable pub is_valid_param : ℕ → ℕ → Bool
is_valid_param offset length' =
    if ltb 0xffff ((offset + length' + (2 ^ 32 - 1)) % 2 ^ 32)
    then false
    else if ltb aecram_buffer_size length'
    then false
    else true

-- The offset and the length that __get_user gives, and the buffer of the caller.
pub record AecramRequest : Type 0 where
  pub offset : ℕ
  pub size : ℕ
  pub buffer : Bytes

pub record AecramSession : Type 0 where
  pub config : Option AecramConfig

-- The answers during one call: is the caller's memory a valid range, how many bytes can be copied, and
-- is the wait for the lock interrupted in a round of the loop?
pub record Answers : Type 0 where
  pub access_ok : Bool
  pub copied : ℕ
  pub interrupted : ℕ → Bool

pub data Call : Type 0 where
  set_type : ℕ → Call
  read : AecramRequest → Call
  write : AecramRequest → Call
  unknown : Call

-- kzalloc leaves a session without a configuration.
unfoldable pub aecram_open : Bool → Ret × Option AecramSession
aecram_open allocated =
    if not allocated then (failed enomem, none) else (done, some (record { config = none }))

module _ (C : Controller) where
  pub record AecramData : Type 0 where
    pub aec : C.State
    pub buffer : Bytes

  unfoldable pub aecram_write : AecramConfig → Bool → ℕ → ℕ → AecramData → Ret × AecramData
  aecram_write cfg interrupted offset val d =
      if interrupted
      then (failed eintr, d)
      else (done, record d { aec = write_locked C cfg offset val d.aec })

  -- The byte is stored in the driver's buffer while the lock is held.
  unfoldable pub aecram_read : AecramConfig → Bool → ℕ → ℕ → AecramData → Ret × AecramData
  aecram_read cfg interrupted offset i d =
      let (val, aec) = read_locked C cfg offset d.aec in
      if interrupted
      then (failed eintr, d)
      else if leb (length d.buffer) i
      then (overrun, d)
      else (done, record d { aec = aec; buffer = set d.buffer i val })

  -- `if (ret < 0) return ret;`
  abbrev pub and_then : Ret × AecramData → (AecramData → Ret × AecramData) → Ret × AecramData
  and_then (done, d) k = k d
  and_then (overrun, d) k = (overrun, d)
  and_then (failed e, d) k = (failed e, d)

  abbrev write_element : AecramConfig → Bool → ℕ → Option ℕ → AecramData → Ret × AecramData
  write_element cfg interrupted offset none d = (overrun, d)
  write_element cfg interrupted offset (some val) d = aecram_write cfg interrupted offset val d

  -- The loops, with the rounds that are left and the index.
  unfoldable pub aecram_write_buffer :
      AecramConfig → (ℕ → Bool) → ℕ → ℕ → ℕ → AecramData → Ret × AecramData
  aecram_write_buffer cfg interrupted offset zero i d = (done, d)
  aecram_write_buffer cfg interrupted offset (suc n) i d =
      and_then (write_element cfg (interrupted i) ((offset + i) % 2 ^ 16) (get_elem? d.buffer i) d)
        (aecram_write_buffer cfg interrupted offset n (i + 1))

  unfoldable pub aecram_read_buffer :
      AecramConfig → (ℕ → Bool) → ℕ → ℕ → ℕ → AecramData → Ret × AecramData
  aecram_read_buffer cfg interrupted offset zero i d = (done, d)
  aecram_read_buffer cfg interrupted offset (suc n) i d =
      and_then (aecram_read cfg (interrupted i) ((offset + i) % 2 ^ 16) i d)
        (aecram_read_buffer cfg interrupted offset n (i + 1))

  -- What a call returns and leaves; `user` is the buffer of the caller.
  pub record Outcome : Type 0 where
    pub ret : Ret
    pub session : AecramSession
    pub driver : AecramData
    pub user : Bytes

  abbrev pub copy_back : Answers → AecramRequest → AecramSession → Ret × AecramData → Outcome
  copy_back a req session (done, d) = record {
    ret = if leb req.size a.copied then done else failed efault;
    session = session;
    driver = d;
    user = copy (min req.size a.copied) d.buffer req.buffer;
  }
  copy_back a req session (ret, d) = record {
    ret = ret;
    session = session;
    driver = d;
    user = req.buffer;
  }

  abbrev pub read_request :
      Answers → AecramRequest → AecramSession → AecramConfig → AecramData → Outcome
  read_request a req session cfg d =
      copy_back a req session (aecram_read_buffer cfg a.interrupted req.offset req.size 0 d)

  abbrev pub finish : AecramRequest → AecramSession → Ret × AecramData → Outcome
  finish req session (ret, d) = record {
    ret = ret;
    session = session;
    driver = d;
    user = req.buffer;
  }

  abbrev pub write_request :
      Answers → AecramRequest → AecramSession → AecramConfig → AecramData → Outcome
  write_request a req session cfg d =
      let d' : AecramData = record d {
        buffer = copy (min req.size a.copied) req.buffer d.buffer;
      } in
      finish req session (
        if ltb a.copied req.size
        then (failed efault, d')
        else aecram_write_buffer cfg a.interrupted req.offset req.size 0 d')

  -- The checks that the two requests share.
  abbrev pub checked :
      Answers
      → AecramRequest
      → AecramSession
      → AecramData
      → (AecramConfig → AecramData → Outcome)
      → Outcome
  checked a req session d body = elim session.config [
    | none ↦ finish req session (failed enodev, d)
    | some cfg ↦
        if not a.access_ok
        then finish req session (failed efault, d)
        else if not (is_valid_param req.offset req.size)
        then finish req session (failed einval, d)
        else if req.size == 0
        then finish req session (done, d)
        else body cfg d
  ]

  unfoldable pub aecram_unlocked_ioctl : Answers → Call → AecramSession → AecramData → Outcome
  aecram_unlocked_ioctl a (set_type arg) session d =
      if arg == 1
      then record {
        ret = done;
        session = record { config = some config_default };
        driver = d;
        user = [];
      }
      else record { ret = failed einval; session = session; driver = d; user = [] }
  aecram_unlocked_ioctl a (read req) session d =
      checked a req session d (read_request a req session)
  aecram_unlocked_ioctl a (write req) session d =
      checked a req session d (write_request a req session)
  aecram_unlocked_ioctl a unknown session d = record {
    ret = failed einval;
    session = session;
    driver = d;
    user = [];
  }
