-- ===== src/Aecram/Port/Memory.antt =====
-- The commands on the ports against a memory of 64 KiB.
use tjtools.Common.{ℕ, ◌+◌, ◌*◌, ◌/◌, ◌%◌, ◌^◌, ◌≡◌, ◌<◌, ◌∙◌, ap, ◌==◌, if◌then◌else◌, arith}
use tjtools.Aecram.Port.{
  Controller, AecramConfig, AecCmd, cmd_type_offset_low, cmd_type_offset_high,
  cmd_type_select_value, cmd_out, cmd_in, offset_high, offset_low, write_value, read_value,
  write_locked, read_locked,
}

-- The registers of the controller, with its RAM.
pub record Registers : Type 0 where
  pub index : ℕ
  pub command : ℕ
  pub high : ℕ
  pub low : ℕ
  pub ram : ℕ → ℕ

abbrev pub update : (ℕ → ℕ) → ℕ → ℕ → ℕ → ℕ
update f a v b = if a == b then v else f b

abbrev pub address : Registers → ℕ
address r = r.high * 256 + r.low

-- A write to the second command register executes the command in the first.
abbrev pub execute : ℕ → Registers → Registers
execute arg r =
    if r.command == cmd_type_offset_low
    then record r { low = arg }
    else if r.command == cmd_type_offset_high
    then record r { high = arg }
    else if r.command == cmd_type_select_value
    then record r { ram = update r.ram (address r) arg }
    else r

-- What the driver relies on: the address port selects a register, the data port writes to it, and
-- a read at the second command register under the command for a value gives the byte of the RAM.
pub record IsController (C : Controller) (cfg : AecramConfig) : Type 0 where
  pub view : C.State → Registers
  pub select :
      (r : ℕ) (s : C.State) → view (C.outb r cfg.addr_port s) ≡ record (view s) { index = r }
  pub set_command :
      (v : ℕ) (s : C.State)
      → (view s).index ≡ cfg.cmd_reg
      → view (C.outb v cfg.data_port s) ≡ record (view s) { command = v }
  pub set_argument :
      (v : ℕ) (s : C.State)
      → (view s).index ≡ (cfg.cmd_reg + 1) % 256
      → view (C.outb v cfg.data_port s) ≡ execute v (view s)
  pub get_value :
      (s : C.State)
      → (view s).index ≡ (cfg.cmd_reg + 1) % 256
      → (view s).command ≡ cmd_type_select_value
      → ((C.inb cfg.data_port s).0 ≡ (view s).ram (address (view s)))
        × (view (C.inb cfg.data_port s).1 ≡ view s)

module _ (C : Controller) (cfg : AecramConfig) (law : IsController C cfg) where
  open law use {view}

  -- The registers with a command in place.
  abbrev prepared : ℕ → Registers → Registers
  prepared type r = record r { index = (cfg.cmd_reg + 1) % 256; command = type }

  prepare :
      (type : ℕ) (s : C.State)
      → view (
          C.outb
            ((cfg.cmd_reg + 1) % 256)
            cfg.addr_port
            (C.outb type cfg.data_port (C.outb cfg.cmd_reg cfg.addr_port s)))
        ≡ prepared type (view s)
  prepare type s =
      let s1 = C.outb cfg.cmd_reg cfg.addr_port s in
      let s2 = C.outb type cfg.data_port s1 in
      let selected = law.select cfg.cmd_reg s in
      let commanded = law.set_command type s1 (ap (λ r. r.index) selected) in
      law.select ((cfg.cmd_reg + 1) % 256) s2
      ∙ ap {A = Registers} (λ r. record r { index = (cfg.cmd_reg + 1) % 256 })
          (commanded ∙ ap {A = Registers} (λ r. record r { command = type }) selected)

  cmd_out-execute :
      (cmd : AecCmd) (s : C.State)
      → view (cmd_out C cfg cmd s) ≡ execute cmd.cmd_arg (prepared cmd.cmd_type (view s))
  unfolding cmd_out
  cmd_out-execute cmd s =
      let ready = prepare cmd.cmd_type s in
      law.set_argument cmd.cmd_arg _ (ap (λ r. r.index) ready) ∙ ap (execute cmd.cmd_arg) ready

  -- The two commands that select an offset.
  abbrev selected : ℕ → Registers → Registers
  selected offset r = record r {
    index = (cfg.cmd_reg + 1) % 256;
    command = cmd_type_offset_low;
    high = offset / 256 % 256;
    low = offset % 256;
  }

  select_offset :
      (offset : ℕ) (s : C.State)
      → view (offset_low C cfg offset (offset_high C cfg offset s)) ≡ selected offset (view s)
  unfolding offset_low offset_high
  select_offset offset s =
      cmd_out-execute (record { cmd_type = cmd_type_offset_low; cmd_arg = offset % 256 }) _
      ∙ ap (λ r. execute (offset % 256) (prepared cmd_type_offset_low r))
          (cmd_out-execute
            (record { cmd_type = cmd_type_offset_high; cmd_arg = offset / 256 % 256 }) s)

  -- A byte written under the lock changes the byte of the RAM at the offset, and no other.
  pub write_locked-update :
      (offset val : ℕ) (s : C.State)
      → offset < 2 ^ 16
      → (view (write_locked C cfg offset val s)).ram ≡ update (view s).ram offset val
  unfolding write_locked write_value
  write_locked-update offset val s h =
      let there : offset / 256 % 256 * 256 + offset % 256 ≡ offset = omega arith in
      ap (λ r. r.ram)
        (cmd_out-execute (record { cmd_type = cmd_type_select_value; cmd_arg = val }) _
          ∙ ap (λ r. execute val (prepared cmd_type_select_value r)) (select_offset offset s))
      ∙ ap (λ a. update (view s).ram a val) there

  -- A byte read under the lock is that of the RAM at the offset; the RAM stays as it is.
  pub read_locked_lem :
      (offset : ℕ) (s : C.State)
      → offset < 2 ^ 16
      → ((read_locked C cfg offset s).0 ≡ (view s).ram offset)
        × ((view (read_locked C cfg offset s).1).ram ≡ (view s).ram)
  unfolding read_locked read_value cmd_in
  read_locked_lem offset s h =
      let there : offset / 256 % 256 * 256 + offset % 256 ≡ offset = omega arith in
      let before = offset_low C cfg offset (offset_high C cfg offset s) in
      let ready =
        prepare cmd_type_select_value before
        ∙ ap (prepared cmd_type_select_value) (select_offset offset s) in
      let (value, kept) = law.get_value _ (ap (λ r. r.index) ready) (ap (λ r. r.command) ready) in
      (
        value ∙ ap (λ r. r.ram (address r)) ready ∙ ap (view s).ram there,
        ap (λ r. r.ram) (kept ∙ ready),
      )
