-- ===== src/Aecram/Threads/Progress.antt =====
-- A caller of aecram/driver/driver.c that is under way comes to an end, whatever the others do.
use tjtools.Common.{
  ℕ, suc, ◌+◌, ◌-◌, ◌*◌, ◌≤◌, ◌<◌, ◌≡◌, ◌≢◌, ◌↔◌, ◌⊎◌, Bool, true, false, Option, none, some,
  length,
}
use tjtools.Aecram.Port.{Controller}
use tjtools.Aecram.Driver.{AecramData}
use tjtools.Aecram.Threads.{
  Pc, idle, reading, read_held, read_stored, returned, writing, loaded, write_held, write_stored,
  Move, System, at_caller,
}

-- How many steps of its own a caller has still to make, if none of its waits is interrupted.
abbrev pub steps_left : Pc → ℕ
steps_left idle = 0
steps_left (reading offset size i) = 3 * (size - i) + 1
steps_left (read_held offset size i) = 3 * (size - i)
steps_left (read_stored offset size i) = 3 * (size - i) - 1
steps_left (returned offset size answer) = 0
steps_left (writing offset size i) = 4 * (size - i) + 1
steps_left (loaded offset size i val) = 4 * (size - i)
steps_left (write_held offset size i val) = 4 * (size - i) - 1
steps_left (write_stored offset size i) = 4 * (size - i) - 2

-- Is the caller between mutex_lock_interruptible and mutex_unlock?
abbrev pub holding : Pc → Bool
holding (read_held offset size i) = true
holding (read_stored offset size i) = true
holding (write_held offset size i val) = true
holding (write_stored offset size i) = true
holding _ = false

-- A request is no longer than the buffer, and its loop is within it.
abbrev IsWithin : Pc → Type 0
IsWithin idle = Unit
IsWithin (returned offset size answer) = Unit
IsWithin (reading offset size i) = (i ≤ size) × (size ≤ 64)
IsWithin (writing offset size i) = (i ≤ size) × (size ≤ 64)
IsWithin (read_held offset size i) = (i < size) × (size ≤ 64)
IsWithin (read_stored offset size i) = (i < size) × (size ≤ 64)
IsWithin (loaded offset size i val) = (i < size) × (size ≤ 64)
IsWithin (write_held offset size i val) = (i < size) × (size ≤ 64)
IsWithin (write_stored offset size i) = (i < size) × (size ≤ 64)

-- The lock and the one flag of the caller that makes a step, and of another one.
abbrev Change : Option ℕ → Option ℕ → Bool → Bool → ℕ → Type 0
Change lock lock' before after me =
    ((lock' ≡ lock) × (after ≡ before))
    ⊎ ((lock ≡ none) × (lock' ≡ some me) × (after ≡ true))
    ⊎ ((lock' ≡ none) × (before ≡ true) × (after ≡ false))

module _ (C : Controller) where
  module _ (IsAllowed : ℕ → ℕ → Type 0) where
    abbrev pub CanMove : System C IsAllowed → ℕ → Type 0
    CanMove s i =
        (lock : Option ℕ) × (d : AecramData C) × (p : Pc) × Move C IsAllowed i s.lock s.shared
          (s.pc i) lock d p

    -- The steps of one caller, at most as many as the number says.
    pub data Own (j : ℕ) : ℕ → System C IsAllowed → System C IsAllowed → Type 0 where
      no_step : {n : ℕ} {s : System C IsAllowed} → Own j n s s
      own_step :
          {n : ℕ} {s t : System C IsAllowed} {lock : Option ℕ} {d : AecramData C} {p : Pc}
          → Move C IsAllowed j s.lock s.shared (s.pc j) lock d p
          → Own j n (record { lock = lock; shared = d; pc = at_caller s.pc j p }) t
          → Own j (suc n) s t

    -- The holder of the lock, and nobody else, is between taking it and giving it back.
    abbrev IsSound : System C IsAllowed → Type 0
    IsSound s =
        ((i : ℕ) → IsWithin (s.pc i))
        × ((i : ℕ) → (s.lock ≡ some i) ↔ (holding (s.pc i) ≡ true))
        × (length s.shared.buffer ≡ 64)

    -- At most `n` steps of the caller free the lock, and leave the others where they are.
    abbrev FreedWithin : ℕ → System C IsAllowed → ℕ → Type 0
    FreedWithin n s j =
        (t : System C IsAllowed) × Own j n s t
        × (t.lock ≡ none)
        × ((i : ℕ) → i ≢ j → t.pc i ≡ s.pc i)

    -- After at most two steps of another caller, which has the lock.
    abbrev pub MovesAfter : System C IsAllowed → ℕ → Type 0
    MovesAfter s i =
        (j : ℕ) × (s.lock ≡ some j)
        × (j ≢ i)
        × (t : System C IsAllowed) × Own j 2 s t
        × (t.pc i ≡ s.pc i)
        × CanMove t i
