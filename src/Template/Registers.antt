-- ===== src/Template/Registers.antt =====
-- The entries that read and write registers, and scratch: qla27xx_fwdt_entry_t256 to t261, t265 to
-- t267, t269 to t271 and t273 of drivers/scsi/qla2xxx/qla_tmpl.c. A handler returns the entry, which
-- it may edit, and the dump.
use scst_qla2xxx.Base.{ℕ, zero, suc, ◌+◌, Bool, bit_or, if◌then◌else◌}
use scst_qla2xxx.Template.{Device, Dump, insert32, read_reg, write_reg, iobase_addr, read_window}
use scst_qla2xxx.Template.Entry.{Entry}

module _ {D : Type 0} (dev : Device D) where
  unfoldable pub entry_t256 : Bool → Entry → Dump D → Entry × Dump D
  entry_t256 buf ent d =
      (ent, read_window dev buf ent.base_addr ent.pci_offset ent.reg_count ent.reg_width d)

  unfoldable pub entry_t257 : Bool → Entry → Dump D → Entry × Dump D
  entry_t257 buf ent d = (
    ent,
    write_reg dev buf ent.pci_offset ent.write_data
        (write_reg dev buf (iobase_addr dev) ent.base_addr d),
  )

  unfoldable pub entry_t258 : Bool → Entry → Dump D → Entry × Dump D
  entry_t258 buf ent d = (
    ent,
    read_window dev buf ent.base_addr ent.pci_offset ent.reg_count ent.reg_width
        (write_reg dev buf ent.banksel_offset ent.bank d),
  )

  unfoldable pub entry_t259 : Bool → Entry → Dump D → Entry × Dump D
  entry_t259 buf ent d = (
    ent,
    write_reg dev buf ent.pci_offset ent.write_data (
        write_reg dev buf ent.banksel_offset ent.bank
          (write_reg dev buf (iobase_addr dev) ent.base_addr d)),
  )

  unfoldable pub entry_t260 : Bool → Entry → Dump D → Entry × Dump D
  entry_t260 buf ent d = (ent, read_reg dev buf ent.pci_offset (insert32 buf ent.pci_offset d))

  unfoldable pub entry_t261 : Bool → Entry → Dump D → Entry × Dump D
  entry_t261 buf ent d = (ent, write_reg dev buf ent.pci_offset ent.write_data d)

  unfoldable pub entry_t265 : Bool → Entry → Dump D → Entry × Dump D
  entry_t265 buf ent d = (ent, if buf then record d { chip = dev.pause_risc d.chip } else d)

  unfoldable pub entry_t266 : Bool → Entry → Dump D → Entry × Dump D
  entry_t266 buf ent d = (ent, if buf then record d { chip = dev.soft_reset d.chip } else d)

  unfoldable pub entry_t267 : Bool → Entry → Dump D → Entry × Dump D
  entry_t267 buf ent d = (ent, write_reg dev buf ent.pci_offset ent.data_of d)

  unfoldable pub entry_t269 : Bool → Entry → Dump D → Entry × Dump D
  unfolding insert32
  entry_t269 buf ent d =
      let four =
        insert32 buf 0xdddddddd
          (insert32 buf 0xcccccccc (insert32 buf 0xbbbbbbbb (insert32 buf 0xaaaaaaaa d))) in
      (if buf then record ent { scratch_size = 20 } else ent, insert32 buf (four.len + 4) four)

  -- `dwords` rounds are left.
  unfoldable pub read_remote : Bool → (addr dwords : ℕ) → Dump D → Dump D
  unfolding write_reg insert32 read_reg
  read_remote buf addr zero d = d
  read_remote buf addr (suc dwords) d = read_remote buf (addr + 4) dwords (
      read_reg dev buf 0xc4 (insert32 buf addr (write_reg dev buf 0xc0 (bit_or addr 0x80000000) d)))

  unfoldable pub entry_t270 : Bool → Entry → Dump D → Entry × Dump D
  unfolding read_remote write_reg
  entry_t270 buf ent d =
      (ent, read_remote buf ent.addr ent.count (write_reg dev buf (iobase_addr dev) 0x40 d))

  unfoldable pub entry_t271 : Bool → Entry → Dump D → Entry × Dump D
  entry_t271 buf ent d = (
    ent,
    write_reg dev buf 0xc0 ent.addr
        (write_reg dev buf 0xc4 ent.data_of (write_reg dev buf (iobase_addr dev) 0x40 d)),
  )

  -- The configuration is read without a buffer too.
  unfoldable pub read_pci : Bool → (addr dwords : ℕ) → Dump D → Dump D
  unfolding insert32
  read_pci buf addr zero d = d
  read_pci buf addr (suc dwords) d =
      let (chip', value) = dev.read_config d.chip addr in
      read_pci buf (addr + 4) dwords
        (insert32 buf value (insert32 buf addr (record d { chip = chip' })))

  unfoldable pub entry_t273 : Bool → Entry → Dump D → Entry × Dump D
  unfolding read_pci
  entry_t273 buf ent d = (ent, read_pci buf ent.addr ent.count d)
