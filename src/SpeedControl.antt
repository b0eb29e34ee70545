-- ===== src/SpeedControl.antt =====
-- src/speedcontrolpp.cpp. The opcode of SET_STREAMING is the kernel header's, and so a parameter, as
-- are the answers of open and ioctl.
pub mod Descriptor
pub mod Calls
use mathlib.Core.List.{reverse}
use tjtools.Common.{
  ℕ, ◌+◌, ◌-◌, ◌*◌, ◌/◌, ◌%◌, ◌^◌, Bool, true, false, not, List, [], ◌∷◌, ◌++◌, Option, none, some,
  Bytes, codes, ltb, leb, ◌==◌, if◌then◌else◌, of_le, le32, replicate,
}
use tjtools.Text.{to_hex}
use tjtools.Common.Result.{Result, ok, err}

abbrev pub read_size_multiplier : ℕ
read_size_multiplier = 177

abbrev pub max_speed : ℕ
max_speed = (2 ^ 32 - 1) / (read_size_multiplier + 1)

-- __builtin_bswap32, on the bytes of the word.
unfoldable pub bswap32 : ℕ → ℕ
bswap32 n = of_le (reverse (le32 n))

-- The fields that the program sets; the others stay zero. `restore_defaults` is
-- restore_logical_unit_defaults, the third bit of the first byte.
pub record PerformanceDescriptor : Type 0 where
  pub restore_defaults : Bool
  pub end_lba : ℕ
  pub read_size : ℕ
  pub read_time : ℕ
  pub write_size : ℕ
  pub write_time : ℕ

-- The memory of the descriptor, as the drive gets it.
abbrev pub descriptor_bytes : PerformanceDescriptor → Bytes
descriptor_bytes d =
    (if d.restore_defaults then 4 else 0)
    ∷ 0
    ∷ 0
    ∷ 0
    ∷ (le32 0
        ++ (le32 d.end_lba
            ++ (le32 d.read_size
                ++ (le32 d.read_time ++ (le32 d.write_size ++ le32 d.write_time)))))

-- sizeof(PerformanceDescriptor)
abbrev pub descriptor_size : ℕ
descriptor_size = 28

-- The bytes 0 and 10 of the packet are the only ones that are set.
pub record CommandContext : Type 0 where
  pub opcode : ℕ
  pub parameter_len : ℕ
  pub data_write : Bool
  pub quiet : Bool
  pub perf_desc : PerformanceDescriptor
  pub speed : ℕ

pub data SpeedError : Type 0 where
  invalid_speed open_failed : SpeedError

-- What setStreaming leaves in the context: it sets every field.
abbrev pub streaming : ℕ → ℕ → CommandContext
streaming set_streaming_op speed =
    let rw_size = speed * read_size_multiplier % 2 ^ 32 in
    record {
      opcode = set_streaming_op;
      parameter_len = descriptor_size;
      data_write = true;
      quiet = true;
      perf_desc = record {
        restore_defaults = speed == 0;
        end_lba = bswap32 (2 ^ 32 - 1);
        read_size = bswap32 rw_size;
        read_time = bswap32 1000;
        write_size = bswap32 rw_size;
        write_time = bswap32 1000;
      };
      speed = speed;
    }

unfoldable pub set_streaming : ℕ → ℕ → CommandContext → Result SpeedError CommandContext
set_streaming set_streaming_op speed ctx =
    if leb max_speed speed then err invalid_speed else ok (streaming set_streaming_op speed)

-- The packet of the command; the bytes 9 and 10 are the length of the parameters.
abbrev pub packet : CommandContext → Bytes
packet ctx = ctx.opcode ∷ (replicate 9 0 ++ ctx.parameter_len ∷ 0 ∷ [])

-- The system calls of a run, and its messages. A packet is sent with its parameters.
pub data Action : Type 0 where
  opened closed : Action
  packet_sent : Bytes → Bytes → Action
  dumped : Bytes → Action
  speed_selected : ℕ → Action
  reported_success reported_retry reported_failure : Action

-- The bytes, in base sixteen, with a space behind each.
unfoldable pub hex_words : Bytes → Bytes
hex_words [] = []
hex_words (b ∷ bytes) = to_hex b ++ (b' ' ∷ hex_words bytes)

-- The packet and the sense data. The address of the sense data is always set.
abbrev pub dump : Bytes → CommandContext → Bytes
dump sense_text ctx =
    codes "cmd=" ++ (hex_words (packet ctx) ++ (codes "; sense=" ++ (sense_text ++ codes "\n")))

-- What open and the two ioctl calls answer, and the sense data of the drive as the stream prints them.
pub record Drive : Type 0 where
  pub opens : Bool
  pub takes_packet : Bool
  pub takes_speed : Bool
  pub sense_text : Bytes

-- The scope guard closes the descriptor on every way out.
unfoldable pub issue : Drive → CommandContext → Result SpeedError (List Action)
issue drive ctx =
    let sent = packet_sent (packet ctx) (descriptor_bytes ctx.perf_desc) in
    if not drive.opens
    then err open_failed
    else if drive.takes_packet
    then ok (opened ∷ sent ∷ reported_success ∷ closed ∷ [])
    else if drive.takes_speed
    then ok
        (opened ∷ sent ∷ reported_retry ∷ speed_selected ctx.speed ∷ reported_success ∷ closed ∷ [])
    else ok (
        opened
        ∷ sent
        ∷ reported_retry
        ∷ speed_selected ctx.speed
        ∷ reported_failure
        ∷ dumped (dump drive.sense_text ctx)
        ∷ closed
        ∷ [])

-- The options of the command line, and whether the device is a block file.
pub record Options : Type 0 where
  pub help : Bool
  pub device_is_block : Option Bool
  pub speed : Option ℕ

abbrev pub run_command : ℕ → ℕ → Drive → CommandContext → ℕ × List Action
run_command op speed drive ctx = elim (set_streaming op speed ctx) [
  | err _ ↦ (3, [])
  | ok ctx' ↦ elim (issue drive ctx') [ err _ ↦ (3, []) | ok actions ↦ (0, actions) ]
]

-- The exit code of main, and what it did.
abbrev with_options : ℕ → Option Bool → Option ℕ → Drive → CommandContext → ℕ × List Action
with_options op (some is_block) (some speed) drive ctx =
    let run = run_command op speed drive ctx in if not is_block then (2, []) else run
with_options op _ _ drive ctx = (1, [])

unfoldable pub speed_main : ℕ → Options → Drive → CommandContext → ℕ × List Action
speed_main op options drive ctx =
    let run = with_options op options.device_is_block options.speed drive ctx in
    if options.help then (0, []) else run
