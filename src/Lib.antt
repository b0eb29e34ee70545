-- ===== src/Lib.antt =====
-- A verification library for tjtools, a collection of small system tools in C++ and C. Each tool is
-- modelled by a module of its own; paths below are relative to the root of the repository.
--
-- Brightness: the backlight daemon, src/brightness_daemon.cpp with src/brightness_utils/.
--   Clients send datagrams; the event loop (Daemon: SocketContext::process, the signal handler, main)
--   checks the length of a frame and hands it to handleFrame (Frame), which calls a method of
--   BacklightContext (Backlight: set, setState, modifyState, saveState, restoreState,
--   setPowersave). The methods take the answers of the kernel as an argument and return how they
--   end, with the state that they leave. Frame/Commands is the specification of the wire format.
--   The start (Startup: Config::read, BacklightContext::init, SocketContext::init and start) looks the
--   node up in sysfs (Sysfs: sysfs.h over a file system that is a parameter), creates the socket and
--   drops the privileges of root (Privileges: common.cpp over a user database that is a parameter).
--   Life is main as a whole, from the configuration to the saved state.
-- UrlParse: src/urlparse.cpp, percent-decoding. UpperSanitize: src/upper_sanitize.cpp, the capitals
--   inside words. Both are modelled from the standard input to the standard output; Common/Lines
--   is the loop over the lines.
-- AmdMicrocode: src/amd_microcode.cpp. The module is main over the mapped file: a read outside it, or
--   outside a payload, is a way to end of its own. Program is the rest of main and print_sha256.
-- ExtractFw: src/extract_bmi260_fw.cpp, the search for the firmware blob; Program is its main.
-- SpeedControl: src/speedcontrolpp.cpp, the bytes of the command and the calls of a run.
-- Container: src/container.cpp, the specification and the runs of cryptsetup. Fetch is the
--   configuration, scp_fetch over a libcurl that is a parameter, and the program as a whole.
-- CpuPowerlimit: src/cpu_powerlimit.cpp, from the parsed configuration to the runs of ryzenadj. The
--   floating-point numbers are a parameter.
-- Aecram: the memory of an embedded controller. src/aecram_util.cpp (Util) calls the driver
--   aecram/driver/driver.c (Driver: the file operations; Port: the commands on the I/O ports, over a
--   controller that is a parameter). Port/Memory states what the driver relies on in the controller;
--   Threads lets the calls of several callers interleave, with the lock as part of the state, taken and
--   given back in steps of its own; Module is the driver from its loading to its unloading, with the
--   files that are open and their sessions.
-- Amp: src/clevo_amp_control.c, the amplifier on the I2C bus. The device answers by the transactions
--   before; Plan is the list of orders that a run carries out, Registers what it leaves on a device.
-- Sessions: src/active_user.c and src/notify_wrapper.c, over the answers of libsystemd.
-- BatteryWatch: src/battery_watch.cpp, the rounds of the watch over a record of float operations.
-- AccessBlocker: src/access_blocker.c, the table of blocked inodes and the two hooks.
-- AwinicDetect: src/awinic_detect.c, over the answers of the adapter.
-- EvdevKeepalive: src/evdev_keepalive.c, by its calls, with the signals between them.
-- Text, Common: the standard library as far as the tools use it (std::to_string, std::stoi, `>>` into
--   a string, paths, getline), and shared helpers. Tests: the models on concrete inputs.
--
-- Numbers are native naturals; a machine word keeps its wrap-around, an int is an integer with its
-- range as a condition, and an overflow of an int is undefined behaviour, a result of its own.
-- Memory is little-endian. Fuel: get_parent_device, whose links a file system may close to a circle,
-- runs with more of it than there are links; the search of ExtractFw with one round more than the file
-- has bytes; the digits of to_string and to_hex with one round more than the value, of which each
-- round leaves at most a tenth.
--
-- The endless loop of BatteryWatch runs over a list of rounds, each with what it finds.
--
-- Not modelled: the libraries (Boost, OpenSSL, libcurl, nlohmann::json, libsystemd, libudev) and the
-- system calls, which are parameters; most messages to the error stream and the journal's text, and
-- help texts.
pub mod Common
pub mod Text
pub mod Brightness
pub mod UrlParse
pub mod UpperSanitize
pub mod AmdMicrocode
pub mod ExtractFw
pub mod SpeedControl
pub mod Container
pub mod CpuPowerlimit
pub mod Aecram
pub mod Amp
pub mod Sessions
pub mod BatteryWatch
pub mod AccessBlocker
pub mod EvdevKeepalive
pub mod AwinicDetect
pub mod Tests
