-- ===== src/Aecram/Util.antt =====
-- src/aecram_util.cpp, on top of the driver: dump and main.
pub mod Dump
use tjtools.Common.{
  ℕ, ◌+◌, ◌-◌, ◌/◌, ◌%◌, ◌^◌, Bool, true, false, not, List, [], ◌∷◌, ◌++◌, Option, none, some,
  Bytes, ltb, if◌then◌else◌, replicate, take,
}
use tjtools.Common.Int.{ℤ, pos, negsuc}
use tjtools.Common.Result.{Result, ok, err}
use tjtools.Text.{hex_digit}
use tjtools.Aecram.Port.{Controller}
use tjtools.Aecram.Driver.{
  Ret, done, AecramRequest, AecramSession, Answers, set_type, read, AecramData, Outcome,
  aecram_open, aecram_unlocked_ioctl, aecram_buffer_size,
}

abbrev pub unknown_offset : ℕ
unknown_offset = 0xd100

pub data DumpError : Type 0 where
  invalid_offset invalid_length open_failed set_type_failed read_failed : DumpError

-- Does the device file open, and has the kernel memory for a session? The answers are those to the
-- two calls of ioctl.
pub record Kernel : Type 0 where
  pub opens : Bool
  pub allocates : Bool
  pub at_set_type : Answers
  pub at_read : Answers

-- `std::hex` of a byte, with the end of the line.
abbrev pub hex_line : ℕ → Bytes
hex_line n =
    if ltb n 16
    then hex_digit n ∷ b'\n' ∷ []
    else hex_digit (n / 16) ∷ hex_digit (n % 16) ∷ b'\n' ∷ []

abbrev pub hex_lines : Bytes → Bytes
hex_lines [] = []
hex_lines (n ∷ ns) = hex_line n ++ hex_lines ns

abbrev pub dump_request : ℕ → ℕ → AecramRequest
dump_request offset length = record {
  offset = (unknown_offset + offset) % 2 ^ 16;
  size = length % 2 ^ 8;
  buffer = replicate 64 0;
}

module _ (C : Controller) where
  -- What is printed, or the exception, and the state of the driver.
  abbrev pub Dumped : Type 0
  Dumped = Result DumpError Bytes × AecramData C

  abbrev pub printed : ℕ → Ret → Outcome C → Dumped
  printed length done o = (ok (hex_lines (take length o.user)), o.driver)
  printed length _ o = (err read_failed, o.driver)

  abbrev pub read_and_print : Kernel → ℕ → ℕ → AecramSession → AecramData C → Dumped
  read_and_print k offset length session d =
      let o = aecram_unlocked_ioctl C k.at_read (read (dump_request offset length)) session d in
      printed length o.ret o

  abbrev pub typed : Kernel → ℕ → ℕ → Ret → Outcome C → Dumped
  typed k offset length done o = read_and_print k offset length o.session o.driver
  typed k offset length _ o = (err set_type_failed, o.driver)

  abbrev pub opened : Kernel → ℕ → ℕ → Option AecramSession → AecramData C → Dumped
  opened k offset length none d = (err open_failed, d)
  opened k offset length (some session) d =
      let o = aecram_unlocked_ioctl C k.at_set_type (set_type 1) session d in
      typed k offset length o.ret o

  unfoldable pub dump : Kernel → ℕ → ℕ → AecramData C → Dumped
  dump k offset length d =
      if ltb (0xffff - unknown_offset) offset
      then (err invalid_offset, d)
      else if ltb aecram_buffer_size length
      then (err invalid_length, d)
      else if not k.opens
      then (err open_failed, d)
      else opened k offset length (aecram_open k.allocates).1 d

  -- The value that main returns, what is printed, and the state of the driver.
  pub record Run : Type 0 where
    pub code : ℤ
    pub output : Bytes
    pub driver : AecramData C

  abbrev code_of : Dumped → Run
  code_of (ok text, d) = record { code = pos 0; output = text; driver = d }
  code_of (err _, d) = record { code = negsuc 2; output = []; driver = d }

  abbrev with_options : Kernel → Option ℕ → Option ℕ → AecramData C → Run
  with_options k none length d = record { code = negsuc 0; output = []; driver = d }
  with_options k (some offset) none d = record { code = negsuc 1; output = []; driver = d }
  with_options k (some offset) (some length) d = code_of (dump k offset length d)

  -- The help text is not modelled.
  unfoldable pub util_main : Kernel → Bool → Option ℕ → Option ℕ → AecramData C → Run
  util_main k help offset length d =
      if help
      then record { code = pos 0; output = []; driver = d }
      else with_options k offset length d
