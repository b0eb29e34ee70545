-- ===== src/Aecram/Module.antt =====
-- The module of aecram/driver/driver.c from its loading on: aecram_init, aecram_exit, aecram_open,
-- aecram_close and the calls of ioctl, on the files that are open.
pub mod Files
pub mod History
use tjtools.Common.{
  ℕ, ◌+◌, ◌-◌, ◌≡◌, Bool, true, false, List, [], ◌∷◌, Option, none, some, ◌==◌, if◌then◌else◌,
  replicate,
}
use tjtools.Common.Int.{ℤ, pos, negsuc}
use tjtools.Aecram.Port.{Controller}
use tjtools.Aecram.Driver.{
  Ret, done, failed, enomem, AecramSession, Answers, Call, aecram_open, AecramData, Outcome,
  aecram_unlocked_ioctl, aecram_buffer_size,
}
use tjtools.Aecram.Driver.Safety.{IsCall}

-- Open files, each with the session that its private_data points to.
abbrev pub Files : Type 0
Files = List (ℕ × AecramSession)

unfoldable pub find : ℕ → Files → Option AecramSession
find filp [] = none
find filp ((f, s) ∷ files) = let later = find filp files in if f == filp then some s else later

unfoldable pub remove : ℕ → Files → Files
remove filp [] = []
remove filp ((f, s) ∷ files) =
    let later = remove filp files in if f == filp then files else (f, s) ∷ later

unfoldable pub replace : ℕ → AecramSession → Files → Files
replace filp session [] = []
replace filp session ((f, s) ∷ files) =
    let later = replace filp session files in
    if f == filp then (f, session) ∷ files else (f, s) ∷ later

module _ (C : Controller) where
  -- The static data of the driver, the open files, and the number of sessions that have been allocated
  -- and not freed.
  pub record Module : Type 0 where
    pub loaded : Bool
    pub driver : AecramData C
    pub files : Files
    pub allocated : ℕ

  -- memset of the static data.
  abbrev pub cleared : AecramData C → AecramData C
  cleared d = record d { buffer = replicate aecram_buffer_size 0 }

  -- `registered` is what misc_register returns.
  unfoldable pub aecram_init : ℤ → Module → Ret × Module
  aecram_init (pos n) m = (done, record m { loaded = true; driver = cleared m.driver })
  aecram_init (negsuc n) m = (failed enomem, record m { driver = cleared m.driver })

  unfoldable pub aecram_exit : Module → Module
  aecram_exit m = record m { loaded = false; driver = cleared m.driver }

  abbrev with_session : ℕ → Option AecramSession → Module → Module
  with_session filp none m = m
  with_session filp (some s) m = record m {
    files = (filp, s) ∷ m.files;
    allocated = m.allocated + 1;
  }

  unfoldable pub open_file : ℕ → Bool → Module → Module
  open_file filp allocates m = with_session filp (aecram_open allocates).1 m

  -- kfree of the session.
  unfoldable pub aecram_close : ℕ → Module → Module
  aecram_close filp m = record m { files = remove filp m.files; allocated = m.allocated - 1 }

  abbrev pub with_outcome : ℕ → Outcome C → Module → Module
  with_outcome filp o m = record m { driver = o.driver; files = replace filp o.session m.files }

  unfoldable pub ioctl_file : ℕ → Answers → Call → AecramSession → Module → Module
  ioctl_file filp a call session m =
      with_outcome filp (aecram_unlocked_ioctl C a call session m.driver) m

  -- One call of the kernel. The kernel opens files of a loaded module only, hands a file to the other
  -- operations only while it is open, and, since the operations have an owner, unloads a module only when
  -- no file is open.
  pub data Step (m : Module) : Module → Type 0 where
    load : (registered : ℤ) → m.loaded ≡ false → Step m (aecram_init registered m).1
    unload : m.loaded ≡ true → m.files ≡ [] → Step m (aecram_exit m)
    opened :
        (filp : ℕ) (allocates : Bool)
        → m.loaded ≡ true
        → find filp m.files ≡ none
        → Step m (open_file filp allocates m)
    closed :
        (filp : ℕ) {s : AecramSession} → find filp m.files ≡ some s → Step m (aecram_close filp m)
    called :
        (filp : ℕ) (a : Answers) (call : Call) {s : AecramSession}
        → find filp m.files ≡ some s
        → IsCall call
        → Step m (ioctl_file filp a call s m)

  -- Before the module is loaded.
  abbrev pub unloaded : AecramData C → Module
  unloaded d = record { loaded = false; driver = cleared d; files = []; allocated = 0 }

  pub data Reach (d : AecramData C) : Module → Type 0 where
    start : Reach d (unloaded d)
    later : {m n : Module} → Reach d m → Step m n → Reach d n
