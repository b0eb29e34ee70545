-- ===== src/Aecram/Port.antt =====
-- The access to the controller's RAM by two I/O ports: cmd_out to read_value of aecram/driver/driver.c.
-- The hardware is a parameter.
pub mod Memory
use tjtools.Common.{ℕ, ◌+◌, ◌/◌, ◌%◌}

-- outb(value, port) and inb(port), on an unknown state.
pub record Controller : Type 1 where
  pub State : Type 0
  pub outb : ℕ → ℕ → State → State
  pub inb : ℕ → State → ℕ × State

-- `cmd_reg` is two registers long.
pub record AecramConfig : Type 0 where
  pub addr_port : ℕ
  pub data_port : ℕ
  pub cmd_reg : ℕ

pub record AecCmd : Type 0 where
  pub cmd_type : ℕ
  pub cmd_arg : ℕ

abbrev pub cmd_type_offset_low : ℕ
cmd_type_offset_low = 0x10

abbrev pub cmd_type_offset_high : ℕ
cmd_type_offset_high = 0x11

abbrev pub cmd_type_select_value : ℕ
cmd_type_select_value = 0x12

abbrev pub config_default : AecramConfig
config_default = record { addr_port = 0x4e; data_port = 0x4f; cmd_reg = 0x2e }

module _ (C : Controller) (cfg : AecramConfig) where
  unfoldable pub cmd_out : AecCmd → C.State → C.State
  cmd_out cmd s =
      let s1 = C.outb cfg.cmd_reg cfg.addr_port s in
      let s2 = C.outb cmd.cmd_type cfg.data_port s1 in
      let s3 = C.outb ((cfg.cmd_reg + 1) % 256) cfg.addr_port s2 in
      C.outb cmd.cmd_arg cfg.data_port s3

  unfoldable pub cmd_in : AecCmd → C.State → ℕ × C.State
  cmd_in cmd s =
      let s1 = C.outb cfg.cmd_reg cfg.addr_port s in
      let s2 = C.outb cmd.cmd_type cfg.data_port s1 in
      let s3 = C.outb ((cfg.cmd_reg + 1) % 256) cfg.addr_port s2 in C.inb cfg.data_port s3

  unfoldable pub offset_high : ℕ → C.State → C.State
  offset_high offset =
      cmd_out (record { cmd_type = cmd_type_offset_high; cmd_arg = offset / 256 % 256 })

  unfoldable pub offset_low : ℕ → C.State → C.State
  offset_low offset = cmd_out (record { cmd_type = cmd_type_offset_low; cmd_arg = offset % 256 })

  unfoldable pub write_value : ℕ → C.State → C.State
  write_value val = cmd_out (record { cmd_type = cmd_type_select_value; cmd_arg = val })

  unfoldable pub read_value : C.State → ℕ × C.State
  read_value = cmd_in (record { cmd_type = cmd_type_select_value; cmd_arg = 0 })

  -- What aecram_write and aecram_read do while they hold the lock.
  unfoldable pub write_locked : ℕ → ℕ → C.State → C.State
  write_locked offset val s = write_value val (offset_low offset (offset_high offset s))

  unfoldable pub read_locked : ℕ → C.State → ℕ × C.State
  read_locked offset s = read_value (offset_low offset (offset_high offset s))
