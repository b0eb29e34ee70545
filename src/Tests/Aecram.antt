-- ===== src/Tests/Aecram.antt =====
-- aecram/driver/driver.c and src/aecram_util.cpp on a controller whose RAM holds, at each address, the
-- address modulo 256.
use tjtools.Common.{
  ◌⊎◌, ℕ, ◌%◌, ◌≡◌, refl, ap, subst, none, true, false, [], ◌∷◌, some, ◌==◌, if◌then◌else◌,
  replicate, arith, codes,
}
use tjtools.Aecram.Port.{Controller, config_default, cmd_type_select_value, write_locked}
use tjtools.Aecram.Port.Memory.{Registers, IsController, address, execute}
use tjtools.Aecram.Driver.{
  done, failed, einval, AecramRequest, AecramSession, Answers, read, write, set_type, AecramData,
  aecram_unlocked_ioctl, copy, is_valid_param,
}
use tjtools.Aecram.Driver.Loops.{ram}
use tjtools.Aecram.Driver.Requests.{IsGranted, configured, ioctl_read-ioctl_write}
use tjtools.Aecram.Driver.Safety.{Keeps}
use tjtools.Aecram.Module.{
  Module, cleared, aecram_init, open_file, ioctl_file, find, replace, load, opened, called,
  unloaded, Reach as ModuleReach, start as unloaded_start, later as after_step,
}
use tjtools.Aecram.Module.History.{Reach-safe}
use tjtools.Common.Int.{pos}
use tjtools.Aecram.Threads.{
  idle, reading, returned, writing, loaded, write_held, write_stored, System, at_caller, Reach,
  start, later,
}
use tjtools.Aecram.Threads.Races.{returned-race}
use tjtools.Aecram.Util.{Kernel, dump, util_main}
use tjtools.Aecram.Util.Dump.{IsWilling, dumped, dump-dumped}

abbrev outb : ℕ → ℕ → Registers → Registers
outb v port s =
    if port == 0x4e
    then record s { index = v }
    else if s.index == 0x2e
    then record s { command = v }
    else if s.index == 0x2f
    then execute v s
    else s

abbrev machine : Controller
machine = record { State = Registers; outb = outb; inb = λ port s. (s.ram (address s), s) }

abbrev law : IsController machine config_default
law = record {
  view = λ s. s;
  select = λ r s. refl;
  set_command = λ v s e. simp e refl;
  set_argument = λ v s e. simp e refl;
  get_value = λ s e f. (refl, refl);
}

abbrev registers : Registers
registers = record { index = 0; command = 0; high = 0; low = 0; ram = λ a. a % 256 }

abbrev driver : AecramData machine
driver = record { aec = registers; buffer = replicate 64 0 }

abbrev willing : Answers
willing = record { access_ok = true; copied = 64; interrupted = λ j. false }

abbrev kernel : Kernel
kernel = record { opens = true; allocates = true; at_set_type = willing; at_read = willing }

kernel-IsWilling : IsWilling kernel
kernel-IsWilling = record {
  opens = refl;
  allocates = refl;
  accessible = refl;
  copies = omega arith;
  free = λ j. refl;
}

dump-dumped_example :
    ((dump machine kernel 8 3 driver).0 ≡ dumped (ram machine law driver) 8 3)
    × (ram machine law (dump machine kernel 8 3 driver).1 ≡ ram machine law driver)
dump-dumped_example = dump-dumped machine law kernel 8 3 driver kernel-IsWilling refl

abbrev stored : AecramRequest
stored = record { offset = 0xd108; size = 3; buffer = replicate 64 0xaa }

abbrev wanted : AecramRequest
wanted = record { offset = 0xd108; size = 3; buffer = replicate 64 0 }

stored-IsGranted : IsGranted willing stored
stored-IsGranted = record {
  accessible = refl;
  copies = omega arith;
  free = λ j. refl;
  some_bytes = omega arith;
  fits_buffer = omega arith;
  fits_ram = omega arith;
  user_size = refl;
}

wanted-IsGranted : IsGranted willing wanted
wanted-IsGranted = record {
  accessible = refl;
  copies = omega arith;
  free = λ j. refl;
  some_bytes = omega arith;
  fits_buffer = omega arith;
  fits_ram = omega arith;
  user_size = refl;
}

ioctl_read-ioctl_write_example :
    let w = aecram_unlocked_ioctl machine willing (write stored) configured driver in
    let r = aecram_unlocked_ioctl machine willing (read wanted) configured w.driver in
    (r.ret ≡ done) × (r.user ≡ copy stored.size stored.buffer wanted.buffer)
ioctl_read-ioctl_write_example =
    ioctl_read-ioctl_write machine law willing willing stored wanted driver stored-IsGranted
      wanted-IsGranted refl refl refl

abbrev interrupted : Answers
interrupted = record { access_ok = true; copied = 64; interrupted = λ j. j == 1 }

-- The module is loaded; a process opens the file 3 and chooses the type of the controller.
abbrev fresh : AecramSession
fresh = record { config = none }

abbrev with_file : AecramSession → Module machine
with_file s = record {
  loaded = true;
  driver = cleared machine driver;
  files = (3, s) ∷ [];
  allocated = 1;
}

abbrev opened_module : Module machine
opened_module = with_file configured

inits :
    aecram_init machine (pos 0) (unloaded machine driver)
    ≡ (done, record (unloaded machine driver) { loaded = true })
unfolding aecram_init
inits = refl

opens_file :
    open_file machine 3 true (record (unloaded machine driver) { loaded = true }) ≡ with_file fresh
unfolding open_file tjtools.Aecram.Driver.aecram_open
opens_file = refl

file_is_open : find 3 opened_module.files ≡ some configured
unfolding find
file_is_open = refl

nothing_is_open : find 3 [] ≡ none
unfolding find
nothing_is_open = refl

chosen : ioctl_file machine 3 willing (set_type 1) fresh (with_file fresh) ≡ opened_module
unfolding ioctl_file replace aecram_unlocked_ioctl
chosen = refl

fresh_is_open : find 3 (with_file fresh).files ≡ some fresh
unfolding find
fresh_is_open = refl

file_was_opened : ModuleReach machine driver (with_file fresh)
file_was_opened = subst (ModuleReach machine driver) opens_file (
    after_step
      (subst (ModuleReach machine driver) (ap (λ r. r.1) inits)
        (after_step unloaded_start (load (pos 0) refl)))
      (opened 3 true refl nothing_is_open))

module_is_open : ModuleReach machine driver opened_module
module_is_open =
    subst (ModuleReach machine driver) chosen
      (after_step file_was_opened (called 3 willing (set_type 1) fresh_is_open tt))

Reach-safe_example :
    (opened_module.allocated ≡ 1)
    × ((opened_module.loaded ≡ true)
        ⊎ ((opened_module.loaded ≡ false)
            × (opened_module.files ≡ [])
            × (opened_module.allocated ≡ 0)))
    × ((find 3 opened_module.files ≡ none)
        ⊎ ((s : AecramSession) × (find 3 opened_module.files ≡ some s)
            × (opened_module.loaded ≡ true)
            × Keeps machine law
                (write stored)
                opened_module.driver
                (aecram_unlocked_ioctl machine interrupted (write stored) s opened_module.driver)))
Reach-safe_example =
    Reach-safe machine law 3 interrupted (write stored) module_is_open
      (record { offset_u16 = omega arith; size_u8 = omega arith; buffer_size = refl })

-- The callers may write to the four bytes from the address 8 on.
abbrev Allowed : ℕ → ℕ → Type 0
Allowed offset size = (offset ≡ 8) × (size ≡ 4)

abbrev loaded_data : AecramData machine
loaded_data = record driver { buffer = copy 4 (replicate 64 7) (replicate 64 0) }

abbrev written_data : AecramData machine
written_data = record loaded_data { aec = write_locked machine config_default 8 7 registers }

-- One caller stores the bytes of a write, takes the lock and writes the first of them; another one begins
-- to read, and has to wait.
abbrev after_byte : System machine Allowed
after_byte = record {
  lock = some 0;
  shared = written_data;
  pc =
      at_caller
        (at_caller
          (at_caller (at_caller (at_caller (λ i. idle) 0 (writing 8 4 0)) 0 (loaded 8 4 0 7)) 0
            (write_held 8 4 0 7))
          0 (write_stored 8 4 0))
        1 (reading 0 1 0);
}

returned-race_example :
    (s : System machine Allowed) × Reach machine Allowed driver s
    × (s.pc 0 ≡ returned 5 1 (ram machine law driver 9 ∷ []))
returned-race_example =
    returned-race machine law Allowed 5 9 driver (omega arith) (omega arith) refl

-- The utility on the same controller: two bytes from the offset 8 on.
printed_bytes : (util_main machine kernel false (some 8) (some 2) driver).output ≡ codes "8\n9\n"
unfolding util_main dump tjtools.Aecram.Driver.aecram_open aecram_unlocked_ioctl is_valid_param
    tjtools.Aecram.Driver.aecram_read_buffer tjtools.Aecram.Driver.aecram_read
    tjtools.Aecram.Port.read_locked tjtools.Aecram.Port.read_value tjtools.Aecram.Port.cmd_in
    tjtools.Aecram.Port.offset_low tjtools.Aecram.Port.cmd_out tjtools.Aecram.Port.offset_high
printed_bytes = refl

-- An empty range is valid, but for the one at the offset 0.
empty_refused : (is_valid_param 0 0 ≡ false) × (is_valid_param 1 0 ≡ true)
unfolding is_valid_param
empty_refused = (refl, refl)
