-- ===== src/Aecram/Threads.antt =====
-- Callers of the driver that run at once. The lock of aecram/driver/driver.c is held for one byte at a
-- time, and the buffer that the requests share is filled and read outside of it.
pub mod Races
pub mod Progress
use tjtools.Common.{
  ℕ, ◌+◌, ◌%◌, ◌^◌, ◌≤◌, ◌<◌, ◌≡◌, Bool, true, false, Option, none, some, Bytes, ◌==◌,
  if◌then◌else◌, length, get_elem?, take,
}
use tjtools.Aecram.Port.{Controller, config_default}
use tjtools.Aecram.Driver.{
  aecram_buffer_size, done, copy, is_valid_param, AecramData, aecram_read, aecram_write,
}

-- Where a caller stands in aecram_unlocked_ioctl, with its local variables. It is outside of a request;
-- before the round `i` of the loop of aecram_read_buffer; in aecram_read with the lock, before and behind
-- the access to the port; or back with an answer. In a write, the byte of the buffer is loaded before
-- aecram_write is called.
pub data Pc : Type 0 where
  idle : Pc
  reading read_held read_stored : (offset size i : ℕ) → Pc
  returned : (offset size : ℕ) → Bytes → Pc
  writing write_stored : (offset size i : ℕ) → Pc
  loaded write_held : (offset size i val : ℕ) → Pc

abbrev pub at_caller : (ℕ → Pc) → ℕ → Pc → ℕ → Pc
at_caller pc i p j = if j == i then p else pc j

module _ (C : Controller) (IsAllowed : ℕ → ℕ → Type 0) where
  -- One step of the caller `me`, with a session that is configured. The lock is the caller that holds
  -- it. A wait for it can be interrupted, and a copy from or to the caller can fail, the first one with
  -- some bytes copied. `IsAllowed` says which ranges the callers may write to.
  pub data Move (me : ℕ) (lock : Option ℕ) (d : AecramData C)
      : Pc → Option ℕ → AecramData C → Pc → Type 0 where
    begin_read :
        {offset size : ℕ}
        → is_valid_param offset size ≡ true
        → 0 < size
        → Move me lock d idle lock d (reading offset size 0)
    read_lock :
        {offset size i : ℕ}
        → i < size
        → lock ≡ none
        → Move me lock d (reading offset size i) (some me) d (read_held offset size i)
    read_interrupted :
        {offset size i : ℕ} → i < size → Move me lock d (reading offset size i) lock d idle
    read_byte :
        {offset size i : ℕ} {d' : AecramData C}
        → aecram_read C config_default false ((offset + i) % 2 ^ 16) i d ≡ (done, d')
        → Move me lock d (read_held offset size i) lock d' (read_stored offset size i)
    read_unlock :
        {offset size i : ℕ}
        → Move me lock d (read_stored offset size i) none d (reading offset size (i + 1))
    copy_to_user :
        {offset size i : ℕ}
        → i ≡ size
        → Move me lock d (reading offset size i) lock d (returned offset size (take size d.buffer))
    copy_to_user_failed :
        {offset size i : ℕ} → i ≡ size → Move me lock d (reading offset size i) lock d idle
    copy_from_user :
        {offset size : ℕ} (user : Bytes)
        → length user ≡ aecram_buffer_size
        → offset < 2 ^ 16
        → size < 2 ^ 8
        → is_valid_param offset size ≡ true
        → 0 < size
        → IsAllowed offset size
        → Move me lock d idle lock
            (record d { buffer = copy size user d.buffer })
            (writing offset size 0)
    copy_from_user_failed :
        (offset size n : ℕ) (user : Bytes)
        → length user ≡ aecram_buffer_size
        → is_valid_param offset size ≡ true
        → n < size
        → Move me lock d idle lock (record d { buffer = copy n user d.buffer }) idle
    load_byte :
        {offset size i val : ℕ}
        → i < size
        → get_elem? d.buffer i ≡ some val
        → Move me lock d (writing offset size i) lock d (loaded offset size i val)
    write_lock :
        {offset size i val : ℕ}
        → lock ≡ none
        → Move me lock d (loaded offset size i val) (some me) d (write_held offset size i val)
    write_interrupted :
        {offset size i val : ℕ} → Move me lock d (loaded offset size i val) lock d idle
    write_byte :
        {offset size i val : ℕ} {d' : AecramData C}
        → aecram_write C config_default false ((offset + i) % 2 ^ 16) val d ≡ (done, d')
        → Move me lock d (write_held offset size i val) lock d' (write_stored offset size i)
    write_unlock :
        {offset size i : ℕ}
        → Move me lock d (write_stored offset size i) none d (writing offset size (i + 1))
    write_done : {offset size i : ℕ} → i ≡ size → Move me lock d (writing offset size i) lock d idle

  pub record System : Type 0 where
    pub lock : Option ℕ
    pub shared : AecramData C
    pub pc : ℕ → Pc

  pub data Step (s : System) : System → Type 0 where
    pick :
        (i : ℕ) {lock : Option ℕ} {d : AecramData C} {p : Pc}
        → Move i s.lock s.shared (s.pc i) lock d p
        → Step s (record { lock = lock; shared = d; pc = at_caller s.pc i p })

  -- From a state in which no call is under way.
  abbrev pub quiet : AecramData C → System
  quiet d = record { lock = none; shared = d; pc = λ i. idle }

  pub data Reach (d : AecramData C) : System → Type 0 where
    start : Reach d (quiet d)
    later : {s t : System} → Reach d s → Step s t → Reach d t
