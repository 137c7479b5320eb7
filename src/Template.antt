-- ===== src/Template.antt =====
-- Firmware dumps of ISP27xx by a template (drivers/scsi/qla2xxx/qla_tmpl.c and qla_tmpl.h): the
-- state of a walk, and the functions that insert into the dump and access the chip.
pub mod Entry
pub mod Registers
pub mod Queues
pub mod Areas
pub mod Calls
pub mod Layout
pub mod Walk
pub mod Sound
pub mod Adds
pub mod Cost
pub mod Handlers
pub mod Grow
pub mod Bounds
pub mod Find
use scst_qla2xxx.Base.{
  ℕ, zero, suc, ◌+◌, ◌*◌, ◌/◌, ◌%◌, ◌^◌, ◌-◌, Bool, true, Option, none, some, List, ◌&&◌, not, ◌==◌,
  if◌then◌else◌,
}
use scst_qla2xxx.Base.Words.{u8, u16, u32}
use scst_qla2xxx.Response.Sense.{copy_bytes}

-- The chip, in a state `D`: registers by their offset, reads of 1, 2 or 4 bytes; PCI configuration;
-- the functions qla24xx_pause_risc, qla24xx_soft_reset, qla24xx_dump_ram and qla27xx_dump_mpi_ram of
-- qla_dbg.c. The last two are given where their area of the dump starts and the memory, and return what
-- becomes of the memory.
pub record Device (D : Type 0) : Type 0 where
  pub write_reg : D → ℕ → ℕ → D
  pub read_reg : D → ℕ → ℕ → D × ℕ
  pub read_config : D → ℕ → D × ℕ
  pub pause_risc : D → D
  pub soft_reset : D → D
  pub dump_ram : D → (start dwords at : ℕ) → (ℕ → ℕ) → D × (ℕ → ℕ)
  pub dump_mpi_ram : D → (start dwords at : ℕ) → (ℕ → ℕ) → D × (ℕ → ℕ)

-- A queue: its length, the bytes of its ring, and the word at its shadow pointer.
pub record Que : Type 0 where
  pub length : ℕ
  pub ring : ℕ → ℕ
  pub shadow : Option ℕ

-- What the walk reads of `struct qla_hw_data`; traces are their bytes.
pub record Hw : Type 0 where
  pub max_req_queues : ℕ
  pub max_rsp_queues : ℕ
  pub req_q_map : ℕ → Option Que
  pub rsp_q_map : ℕ → Option Que
  pub fw_memory_size : ℕ
  pub fw_shared_ram_start : ℕ
  pub fw_shared_ram_end : ℕ
  pub fce : Option (ℕ → ℕ)
  pub fce_wr : ℕ
  pub fce_dma : ℕ
  pub fce_mb : ℕ → ℕ
  pub eft : Option (ℕ → ℕ)
  pub eft_dma : ℕ

-- `buf` and `*len`: the bytes of the dump, counted from the buffer's start, and the length so far.
-- Where the code has a null `buf`, the functions take `false` and leave the bytes and the chip.
pub record Dump (D : Type 0) : Type 0 where
  pub mem : ℕ → ℕ
  pub len : ℕ
  pub chip : D

abbrev pub le_byte : ℕ → ℕ → ℕ
le_byte v j = v / 256 ^ j % 256

module _ {D : Type 0} where
  -- memcpy of `size` bytes to the end of the dump, if there is a buffer; then the length grows.
  unfoldable pub insertbuf : Bool → Option (ℕ → ℕ) → ℕ → Dump D → Dump D
  unfolding copy_bytes
  insertbuf buf none size d = record d { len = d.len + size }
  insertbuf buf (some bytes) size d = record d {
    mem = if buf then copy_bytes d.mem d.len bytes size else d.mem;
    len = d.len + size;
  }

  unfoldable pub insert16 : Bool → ℕ → Dump D → Dump D
  unfolding insertbuf
  insert16 buf value d = insertbuf buf (some (le_byte (u16 value))) 2 d

  unfoldable pub insert32 : Bool → ℕ → Dump D → Dump D
  unfolding insertbuf
  insert32 buf value d = insertbuf buf (some (le_byte (u32 value))) 4 d

module _ {D : Type 0} (dev : Device D) where
  -- qla27xx_read8, qla27xx_read16 and qla27xx_read32, by the width; without a buffer the value is all
  -- ones, and is not stored.
  unfoldable pub readn : Bool → (width offset : ℕ) → Dump D → Dump D
  unfolding insert32
  readn buf width offset d =
      let w = if width == 1 then 1 else if width == 2 then 2 else 4 in
      let (chip', value) = dev.read_reg d.chip w offset in
      if buf
      then insert32 true (value % 256 ^ w) (record d { chip = chip' })
      else insert32 buf (256 ^ w - 1) d

  unfoldable pub read_reg : Bool → ℕ → Dump D → Dump D
  unfolding readn
  read_reg buf offset d = readn buf 4 offset d

  unfoldable pub write_reg : Bool → ℕ → ℕ → Dump D → Dump D
  write_reg buf offset data_of d =
      if buf then record d { chip = dev.write_reg d.chip offset (u32 data_of) } else d

  -- offsetof(struct device_reg_24xx, iobase_addr)
  abbrev pub iobase_addr : ℕ
  iobase_addr = 0x54

  -- The loop of qla27xx_read_window; `count` rounds are left.
  unfoldable pub read_words : Bool → (width window addr count : ℕ) → Dump D → Dump D
  unfolding insert32 readn
  read_words buf width window addr zero d = d
  read_words buf width window addr (suc count) d =
      read_words buf width (window + width) (addr + 1) count
        (readn buf width window (insert32 buf addr d))

  unfoldable pub read_window : Bool → (addr offset count width : ℕ) → Dump D → Dump D
  unfolding write_reg read_words
  read_window buf addr offset count width d =
      read_words buf width offset addr count (write_reg buf iobase_addr addr d)
