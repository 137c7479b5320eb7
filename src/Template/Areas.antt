-- ===== src/Template/Areas.antt =====
-- The entries that dump memory: qla27xx_fwdt_entry_t262, t264, t268, t272 and t275 of
-- drivers/scsi/qla2xxx/qla_tmpl.c.
use scst_qla2xxx.Base.{ℕ, ◌+◌, ◌-◌, ◌*◌, Bool, Option, none, some, ◌||◌, ltb, ◌==◌, if◌then◌else◌}
use scst_qla2xxx.Base.Words.{u32}
use scst_qla2xxx.Template.{Device, Hw, Dump, insertbuf}
use scst_qla2xxx.Template.Entry.{Entry, skip, fce_size, eft_size}

module _ {D : Type 0} (dev : Device D) where
  -- `buf + *len` is given to a function of the chip for `dwords` words; then the length grows.
  unfoldable pub fill : Bool → (D → ℕ → (ℕ → ℕ) → D × (ℕ → ℕ)) → ℕ → Dump D → Dump D
  fill buf dump dwords d =
      let (chip', mem') = dump d.chip d.len d.mem in
      if buf
      then record d { mem = mem'; len = d.len + dwords * 4; chip = chip' }
      else record d { len = d.len + dwords * 4 }

  -- The start and the end of the area, if its number is known: 1 is T262_RAM_AREA_CRITICAL_RAM,
  -- 2 T262_RAM_AREA_EXTERNAL_RAM and 3 T262_RAM_AREA_SHARED_RAM.
  unfoldable pub ram_range : Hw → Entry → Option (ℕ × ℕ)
  ram_range hw ent =
      if ent.ram_area == 1
      then some (ent.start_addr, ent.end_addr)
      else if ent.ram_area == 2
      then some (ent.start_addr, hw.fw_memory_size)
      else if ent.ram_area == 3
      then some (hw.fw_shared_ram_start, hw.fw_shared_ram_end)
      else none

  unfoldable pub entry_t262 : Bool → Hw → Entry → Dump D → Entry × Dump D
  entry_t262 buf hw ent d = elim (ram_range hw ent) [
    | none ↦ (skip buf ent, d)
    | some (start, last) ↦
        let ent' =
          if buf then record ent { start_addr = u32 start; end_addr = u32 last } else ent in
        if ltb last start || (last == 0) then (skip buf ent', d) else (
          ent',
          fill buf (λ c at m. dev.dump_ram c start (last - start + 1) at m) (last - start + 1) d,
        )
  ]

  unfoldable pub entry_t264 : Bool → Hw → Entry → Dump D → Entry × Dump D
  unfolding skip insertbuf
  entry_t264 buf hw ent d = elim hw.fce [
    | none ↦ (skip buf ent, d)
    | some fce ↦ (
      if buf
          then record ent {
            fce_trace_size = fce_size;
            write_pointer = hw.fce_wr;
            base_pointer = hw.fce_dma;
            fce_enable_mb = hw.fce_mb;
          }
          else ent,
      insertbuf buf (some fce) fce_size d,
    )
  ]

  -- T268_BUF_TYPE_EXTD_TRACE is 1.
  unfoldable pub entry_t268 : Bool → Hw → Entry → Dump D → Entry × Dump D
  unfolding skip insertbuf
  entry_t268 buf hw ent d =
      if ent.buf_type == 1
      then elim hw.eft [
        | none ↦ (skip buf ent, d)
        | some eft ↦ (
          if buf then record ent { buf_size = eft_size; start_addr = hw.eft_dma } else ent,
          insertbuf buf (some eft) eft_size d,
        )
      ]
      else (skip buf ent, d)

  unfoldable pub entry_t272 : Bool → Entry → Dump D → Entry × Dump D
  unfolding fill
  entry_t272 buf ent d =
      (ent, fill buf (λ c at m. dev.dump_mpi_ram c ent.addr ent.count at m) ent.count d)

  -- The buffer of an entry starts at its byte 20.
  unfoldable pub entry_t275 : Bool → Entry → Dump D → Entry × Dump D
  unfolding skip insertbuf
  entry_t275 buf ent d =
      if ent.length == 0 || ltb ent.entry_size (20 + ent.length)
      then (skip buf ent, d)
      else (ent, insertbuf buf (some ent.buffer) ent.length d)
