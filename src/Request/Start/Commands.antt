-- ===== src/Request/Start/Commands.antt =====
-- The commands of the two functions of Request/Start, from the theorems of Safe about their common
-- part.
use scst_qla2xxx.Base.{ℕ, ◌<◌, ◌≡◌, refl, sym, ap, ◌∙◌, ◌⊎◌, true, false, [], arith}
use mathlib.Core.Path.{subst}
use scst_qla2xxx.Base.Lists.{length}
use scst_qla2xxx.Request.Calc.{calc_iocbs_32, calc_iocbs_64, calc_iocbs_24xx}
use scst_qla2xxx.Request.Handles.{HasSlots}
use scst_qla2xxx.Request.Segments.{type0, type1}
use scst_qla2xxx.Request.Segments.ReadBack.{AllFit}
use scst_qla2xxx.Request.Build.{no_data}
use scst_qla2xxx.Request.Room.Safe.{Fits}
use scst_qla2xxx.Adapter.{ScsiCmnd, Adapter, FcPort}
use scst_qla2xxx.Request.Start.{
  dsds, Flavour, start_locked, send_marker, start_scsi, flavour_2x00, flavour_24xx,
}
use scst_qla2xxx.Request.Start.Builds.{flavour_24xx-BuildsAll, flavour_2x00-BuildsAll}
use scst_qla2xxx.Request.Start.Safe.{Started, Refused, start_locked-Refused, start_locked-Started}

-- Without a marker to send.
start_scsi_quiet :
    (f : Flavour) (ha : Adapter) (que marker_out out sp : ℕ) (cmd : ScsiCmnd)
    → ha.marker_needed ≡ false
    → start_scsi f ha que marker_out out sp cmd ≡ start_locked f ha que out sp cmd
unfolding start_scsi send_marker
start_scsi_quiet f ha que marker_out out sp cmd q = rw q refl

module _ (int_to_scsilun : ℕ → ℕ → ℕ) (ha : Adapter) (port : FcPort)
    (rsp_id que marker_out out used sp : ℕ) (cmd : ScsiCmnd) (v : Fits (ha.req_q_map que) out used)
    (slots : HasSlots (ha.req_q_map que)) (quiet : ha.marker_needed ≡ false) where
  -- When no marker is due, the ring and the slots are sound, a command without data maps no
  -- segments, and addresses have 64 bits and lengths 32, a Command Type 7 that qla24xx_start_scsi
  -- reports as started took a slot that was free, left every word of every entry that the chip
  -- has not read as it was, and two more free entries, told the chip its index, and the chip
  -- reads the mapped scatter list back from the entries of the command.
  pub start_scsi_24xx-Started :
      (no_data cmd ≡ false) ⊎ (dsds cmd ≡ [])
      → length (dsds cmd) < 65536
      → AllFit (type1 ha.chip.qlafx00) (dsds cmd)
      → (start_scsi (flavour_24xx int_to_scsilun ha port rsp_id) ha que marker_out out sp cmd).1
        ≡ true
      → Started
          (type1 ha.chip.qlafx00)
          13
          1
          (calc_iocbs_24xx (length (dsds cmd)))
          out
          used
          sp
          (ha.req_q_map que)
          ((start_scsi
              (flavour_24xx int_to_scsilun ha port rsp_id)
              ha
              que
              marker_out
              out
              sp
              cmd).0.req_q_map
            que)
          cmd
  unfolding flavour_24xx
  start_scsi_24xx-Started data_or small fit start =
      let f = flavour_24xx int_to_scsilun ha port rsp_id in
      let same = start_scsi_quiet f ha que marker_out out sp cmd quiet in
      subst
        (λ r.
          Started (type1 ha.chip.qlafx00) 13 1 (f.calc (length (dsds cmd))) out used sp
            (ha.req_q_map que) (r.0.req_q_map que) cmd)
        (sym same)
        (start_locked-Started f (type1 ha.chip.qlafx00) 13 1 (omega arith)
          (flavour_24xx-BuildsAll int_to_scsilun ha port rsp_id) ha que out used sp cmd v slots
          data_or small fit (ap (λ r. r.1) (sym same) ∙ start))

  -- When no marker is due and the ring and the slots are sound, a command that qla24xx_start_scsi
  -- refuses leaves the ring, its length, pointer and index and the slots as they were, and its
  -- count of free entries does not exceed what is free.
  pub start_scsi_24xx-Refused :
      (start_scsi (flavour_24xx int_to_scsilun ha port rsp_id) ha que marker_out out sp cmd).1
        ≡ false
      → Refused out used (ha.req_q_map que) (
          (start_scsi
              (flavour_24xx int_to_scsilun ha port rsp_id)
              ha
              que
              marker_out
              out
              sp
              cmd).0.req_q_map
            que)
  start_scsi_24xx-Refused no_start =
      let f = flavour_24xx int_to_scsilun ha port rsp_id in
      let same = start_scsi_quiet f ha que marker_out out sp cmd quiet in
      subst (λ r. Refused out used (ha.req_q_map que) (r.0.req_q_map que)) (sym same)
        (start_locked-Refused f (type1 ha.chip.qlafx00) 13 1 (omega arith)
          (flavour_24xx-BuildsAll int_to_scsilun ha port rsp_id) ha que out used sp cmd v slots
          (ap (λ r. r.1) (sym same) ∙ no_start))

module _ (ha : Adapter) (port : FcPort) (marker_out out used sp : ℕ) (cmd : ScsiCmnd)
    (v : Fits (ha.req_q_map 0) out used) (slots : HasSlots (ha.req_q_map 0))
    (quiet : ha.marker_needed ≡ false) where
  -- Under the conditions of start_scsi_24xx-Started, a Command Type 3 (64-bit addresses) that
  -- qla2x00_start_scsi reports as started has the same: a slot that was free, every word of every
  -- unread entry kept, two more free entries, and a scatter list that the chip reads back.
  pub start_scsi_64-Started :
      (no_data cmd ≡ false) ⊎ (dsds cmd ≡ [])
      → length (dsds cmd) < 65536
      → AllFit (type1 ha.chip.qlafx00) (dsds cmd)
      → (start_scsi (flavour_2x00 true ha port) ha 0 marker_out out sp cmd).1 ≡ true
      → Started
          (type1 ha.chip.qlafx00)
          10
          2
          (calc_iocbs_64 (length (dsds cmd)))
          out
          used
          sp
          (ha.req_q_map 0)
          ((start_scsi (flavour_2x00 true ha port) ha 0 marker_out out sp cmd).0.req_q_map 0)
          cmd
  unfolding flavour_2x00
  start_scsi_64-Started data_or small fit start =
      let f = flavour_2x00 true ha port in
      let same = start_scsi_quiet f ha 0 marker_out out sp cmd quiet in
      subst
        (λ r.
          Started (type1 ha.chip.qlafx00) 10 2 (f.calc (length (dsds cmd))) out used sp
            (ha.req_q_map 0) (r.0.req_q_map 0) cmd)
        (sym same)
        (start_locked-Started f (type1 ha.chip.qlafx00) 10 2 (omega arith)
          (flavour_2x00-BuildsAll true ha port) ha 0 out used sp cmd v slots data_or small fit
          (ap (λ r. r.1) (sym same) ∙ start))

  -- Under the conditions of start_scsi_24xx-Started but with addresses of 32 bits, a Command Type
  -- 2 that qla2x00_start_scsi reports as started has the same: a slot that was free, every unread
  -- entry kept with two more free ones, and a scatter list that the chip reads back.
  start_scsi_32-Started :
      (no_data cmd ≡ false) ⊎ (dsds cmd ≡ [])
      → length (dsds cmd) < 65536
      → AllFit type0 (dsds cmd)
      → (start_scsi (flavour_2x00 false ha port) ha 0 marker_out out sp cmd).1 ≡ true
      → Started type0 10 3
          (calc_iocbs_32 (length (dsds cmd)))
          out
          used
          sp
          (ha.req_q_map 0)
          ((start_scsi (flavour_2x00 false ha port) ha 0 marker_out out sp cmd).0.req_q_map 0)
          cmd
  unfolding flavour_2x00
  start_scsi_32-Started data_or small fit start =
      let f = flavour_2x00 false ha port in
      let same = start_scsi_quiet f ha 0 marker_out out sp cmd quiet in
      subst
        (λ r.
          Started type0 10 3 (f.calc (length (dsds cmd))) out used sp (ha.req_q_map 0)
            (r.0.req_q_map 0) cmd)
        (sym same)
        (start_locked-Started f type0 10 3 (omega arith) (flavour_2x00-BuildsAll false ha port) ha 0
          out used sp cmd v slots data_or small fit (ap (λ r. r.1) (sym same) ∙ start))
