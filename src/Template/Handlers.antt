-- ===== src/Template/Handlers.antt =====
-- The handlers of entries beside the description of Template/Cost.
use scst_qla2xxx.Base.{
  ℕ, zero, suc, ◌+◌, ◌-◌, ◌*◌, Bool, true, false, Option, none, some, arith, ◌==◌, ltb, ◌||◌,
  if◌then◌else◌, Bool-cases, Option-cases, inl, inr,
}
use scst_qla2xxx.Template.{Device, Que, Hw, Dump, read_reg, iobase_addr}
use scst_qla2xxx.Template.Entry.{Entry}
use scst_qla2xxx.Template.Registers.{
  entry_t256, entry_t257, entry_t258, entry_t259, entry_t260, entry_t261, entry_t265, entry_t266,
  entry_t267, entry_t269, entry_t270, entry_t271, entry_t273,
}
use scst_qla2xxx.Template.Queues.{
  dump_que, dump_queues, shadow_of, dump_shadow, dump_shadows, entry_t263, entry_t274,
}
use scst_qla2xxx.Template.Areas.{
  ram_range, entry_t262, entry_t264, entry_t268, entry_t272, entry_t275,
}
use scst_qla2xxx.Template.Adds.{
  StaysInside, Adds, Adds-refl, Adds-trans, Adds-cast, insertbuf-Adds, insert16-Adds, insert32-Adds,
  readn-Adds, write_reg-Adds, read_window-Adds, read_remote-Adds, read_pci-Adds, fill-Adds,
  chip-Adds,
}
use scst_qla2xxx.Template.Cost.{cost, que_cost, shadow_cost, sum_from, range_cost, trace_cost}
use scst_qla2xxx.Template.Calls.{
  Call, t0, t255, t256, t257, t258, t259, t260, t261, t262, t263, t264, t265, t266, t267, t268,
  t269, t270, t271, t272, t273, t274, t275, other,
}
use scst_qla2xxx.Template.Walk.{call_entry}

module _ {D : Type 0} where
  dump_que-Adds :
      (buf : Bool) (q : Option Que) (dflt i : ℕ) (r : ℕ × Dump D)
      → Adds (que_cost buf dflt q) r.1 (dump_que buf q dflt i r).1
  unfolding dump_que
  dump_que-Adds true none dflt i r = Adds-refl r.1
  dump_que-Adds false none dflt i r = Adds-cast (omega arith) (
      Adds-trans (insert16-Adds false i r.1)
        (Adds-trans (insert16-Adds false dflt _) (insertbuf-Adds false none (dflt * 64) _)))
  dump_que-Adds buf (some q) dflt i r = Adds-cast (omega arith) (
      Adds-trans (insert16-Adds buf i r.1) (
        Adds-trans (insert16-Adds buf q.length _)
          (insertbuf-Adds buf (some q.ring) (q.length * 64) _)))

  dump_queues-Adds :
      (buf : Bool) (que_map : ℕ → Option Que) (dflt i left : ℕ) (r : ℕ × Dump D)
      → Adds
          (sum_from (λ j. que_cost buf dflt (que_map j)) i left)
          r.1
          (dump_queues buf que_map dflt i left r).1
  unfolding dump_queues
  dump_queues-Adds buf que_map dflt i zero r = Adds-refl r.1
  dump_queues-Adds buf que_map dflt i (suc left) r =
      Adds-trans (dump_que-Adds buf (que_map i) dflt i r)
        (dump_queues-Adds buf que_map dflt (i + 1) left (dump_que buf (que_map i) dflt i r))

  dump_shadow-Adds :
      (buf : Bool) (q : Option Que) (i : ℕ) (r : ℕ × Dump D)
      → Adds (shadow_cost buf q) r.1 (dump_shadow buf q i r).1
  unfolding dump_shadow
  dump_shadow-Adds true none i r = Adds-refl r.1
  dump_shadow-Adds false none i r =
      Adds-trans (insert16-Adds false i r.1)
        (Adds-trans (insert16-Adds false 1 _) (insert32-Adds false (shadow_of none) _))
  dump_shadow-Adds buf (some q) i r =
      Adds-trans (insert16-Adds buf i r.1)
        (Adds-trans (insert16-Adds buf 1 _) (insert32-Adds buf (shadow_of (some q)) _))

  dump_shadows-Adds :
      (buf : Bool) (que_map : ℕ → Option Que) (i left : ℕ) (r : ℕ × Dump D)
      → Adds
          (sum_from (λ j. shadow_cost buf (que_map j)) i left)
          r.1
          (dump_shadows buf que_map i left r).1
  unfolding dump_shadows
  dump_shadows-Adds buf que_map i zero r = Adds-refl r.1
  dump_shadows-Adds buf que_map i (suc left) r =
      Adds-trans (dump_shadow-Adds buf (que_map i) i r)
        (dump_shadows-Adds buf que_map (i + 1) left (dump_shadow buf (que_map i) i r))

  entry_t263-Adds :
      (buf : Bool) (hw : Hw) (ent : Entry) (d : Dump D)
      → Adds (cost buf hw ent t263) d (entry_t263 buf hw ent d).1
  unfolding entry_t263
  entry_t263-Adds buf hw ent d = elim (Bool-cases (ent.queue_type == 1)) [
    | inl e ↦ rw e (dump_queues-Adds buf hw.req_q_map 2048 0 hw.max_req_queues (0, d))
    | inr e ↦ elim (Bool-cases (ent.queue_type == 2)) [
      | inl e2 ↦ rw (e, e2) (dump_queues-Adds buf hw.rsp_q_map 128 0 hw.max_rsp_queues (0, d))
      | inr e2 ↦ rw (e, e2) (Adds-refl d)
    ]
  ]

  entry_t274-Adds :
      (buf : Bool) (hw : Hw) (ent : Entry) (d : Dump D)
      → Adds (cost buf hw ent t274) d (entry_t274 buf hw ent d).1
  unfolding entry_t274
  entry_t274-Adds buf hw ent d = elim (Bool-cases (ent.queue_type == 1)) [
    | inl e ↦ rw e (dump_shadows-Adds buf hw.req_q_map 0 hw.max_req_queues (0, d))
    | inr e ↦ elim (Bool-cases (ent.queue_type == 2)) [
      | inl e2 ↦ rw (e, e2) (dump_shadows-Adds buf hw.rsp_q_map 0 hw.max_rsp_queues (0, d))
      | inr e2 ↦ rw (e, e2) (Adds-refl d)
    ]
  ]

module _ {D : Type 0} (dev : Device D) (inside : StaysInside dev) where
  range-Adds :
      (buf : Bool) (hw : Hw) (ent : Entry) (d : Dump D)
      → Adds (range_cost (ram_range dev hw ent)) d (entry_t262 dev buf hw ent d).1
  unfolding entry_t262
  range-Adds buf hw ent d = elim (Option-cases (ram_range dev hw ent)) [
    | inl e ↦ rw (e, entry_t262) (Adds-refl d)
    | inr ((start, last), e) ↦ elim (Bool-cases (ltb last start || (last == 0))) [
      | inl bad ↦ rw (e, entry_t262, bad) (Adds-refl d)
      | inr good ↦
          rw (e, entry_t262, good)
            (fill-Adds dev buf (λ c at m. dev.dump_ram c start (last - start + 1) at m)
              (last - start + 1) d (inside.ram start (last - start + 1)))
    ]
  ]

  entry_t262-Adds :
      (buf : Bool) (hw : Hw) (ent : Entry) (d : Dump D)
      → Adds (cost buf hw ent t262) d (entry_t262 dev buf hw ent d).1
  unfolding ram_range
  entry_t262-Adds buf hw ent d = range-Adds buf hw ent d

  entry_t264-Adds :
      (buf : Bool) (hw : Hw) (ent : Entry) (d : Dump D)
      → Adds (trace_cost hw.fce 65536) d (entry_t264 dev buf hw ent d).1
  unfolding entry_t264
  entry_t264-Adds buf hw ent d = elim (Option-cases hw.fce) [
    | inl e ↦ rw e (Adds-refl d)
    | inr (fce, e) ↦ rw e (insertbuf-Adds buf (some fce) 65536 d)
  ]

  entry_t268-Adds :
      (buf : Bool) (hw : Hw) (ent : Entry) (d : Dump D)
      → Adds (cost buf hw ent t268) d (entry_t268 dev buf hw ent d).1
  unfolding entry_t268
  entry_t268-Adds buf hw ent d = elim (Bool-cases (ent.buf_type == 1)) [
    | inr other_type ↦ rw other_type (Adds-refl d)
    | inl trace ↦ elim (Option-cases hw.eft) [
      | inl e ↦ rw (trace, e) (Adds-refl d)
      | inr (eft, e) ↦ rw (trace, e) (insertbuf-Adds buf (some eft) 65536 d)
    ]
  ]

  entry_t269-Adds : (buf : Bool) (ent : Entry) (d : Dump D) → Adds 20 d (entry_t269 dev buf ent d).1
  unfolding entry_t269
  entry_t269-Adds buf ent d = Adds-trans (insert32-Adds buf 0xaaaaaaaa d) (
      Adds-trans (insert32-Adds buf 0xbbbbbbbb _) (
        Adds-trans (insert32-Adds buf 0xcccccccc _)
          (Adds-trans (insert32-Adds buf 0xdddddddd _) (insert32-Adds buf _ _))))

  entry_t275-Adds :
      (buf : Bool) (hw : Hw) (ent : Entry) (d : Dump D)
      → Adds (cost buf hw ent t275) d (entry_t275 dev buf ent d).1
  unfolding entry_t275
  entry_t275-Adds buf hw ent d =
      elim (Bool-cases (ent.length == 0 || ltb ent.entry_size (20 + ent.length))) [
        | inl bad ↦ rw bad (Adds-refl d)
        | inr good ↦ rw good (insertbuf-Adds buf (some ent.buffer) ent.length d)
      ]

  chip_if-Adds :
      (buf : Bool) (c : D) (d : Dump D) → Adds 0 d (if buf then record d { chip = c } else d)
  chip_if-Adds true c d = chip-Adds d c
  chip_if-Adds false c d = Adds-refl d

  -- The bytes that a call adds are those of its cost.
  pub call_entry-Adds :
      (call : Call) (buf : Bool) (hw : Hw) (ent : Entry) (d : Dump D)
      → Adds (cost buf hw ent call) d (call_entry dev call buf hw ent d).1
  unfolding call_entry entry_t256 entry_t257 entry_t258 entry_t259 entry_t260 entry_t261 entry_t265
      entry_t266 entry_t267 entry_t270 entry_t271 entry_t272 entry_t273 read_reg
  call_entry-Adds t0 buf hw ent d = Adds-refl d
  call_entry-Adds t255 buf hw ent d = Adds-refl d
  call_entry-Adds t256 buf hw ent d = read_window-Adds dev buf _ _ _ _ d
  call_entry-Adds t257 buf hw ent d =
      Adds-trans (write_reg-Adds dev buf (iobase_addr dev) ent.base_addr d)
        (write_reg-Adds dev buf ent.pci_offset ent.write_data _)
  call_entry-Adds t258 buf hw ent d = Adds-cast (omega arith) (
      Adds-trans (write_reg-Adds dev buf ent.banksel_offset ent.bank d)
        (read_window-Adds dev buf ent.base_addr ent.pci_offset ent.reg_count ent.reg_width _))
  call_entry-Adds t259 buf hw ent d =
      Adds-trans (write_reg-Adds dev buf (iobase_addr dev) ent.base_addr d) (
        Adds-trans (write_reg-Adds dev buf ent.banksel_offset ent.bank _)
          (write_reg-Adds dev buf ent.pci_offset ent.write_data _))
  call_entry-Adds t260 buf hw ent d = Adds-trans (insert32-Adds buf _ d) (readn-Adds dev buf 4 _ _)
  call_entry-Adds t261 buf hw ent d = write_reg-Adds dev buf _ _ d
  call_entry-Adds t262 buf hw ent d = entry_t262-Adds buf hw ent d
  call_entry-Adds t263 buf hw ent d = entry_t263-Adds buf hw ent d
  call_entry-Adds t264 buf hw ent d = entry_t264-Adds buf hw ent d
  call_entry-Adds t265 buf hw ent d = chip_if-Adds buf _ d
  call_entry-Adds t266 buf hw ent d = chip_if-Adds buf _ d
  call_entry-Adds t267 buf hw ent d = write_reg-Adds dev buf _ _ d
  call_entry-Adds t268 buf hw ent d = entry_t268-Adds buf hw ent d
  call_entry-Adds t269 buf hw ent d = entry_t269-Adds buf ent d
  call_entry-Adds t270 buf hw ent d = Adds-cast (omega arith) (
      Adds-trans (write_reg-Adds dev buf (iobase_addr dev) 0x40 d)
        (read_remote-Adds dev buf ent.addr ent.count _))
  call_entry-Adds t271 buf hw ent d = Adds-trans (write_reg-Adds dev buf (iobase_addr dev) 0x40 d) (
      Adds-trans (write_reg-Adds dev buf 0xc4 ent.data_of _)
        (write_reg-Adds dev buf 0xc0 ent.addr _))
  call_entry-Adds t272 buf hw ent d =
      fill-Adds dev buf (λ c at m. dev.dump_mpi_ram c ent.addr ent.count at m) ent.count d
        (inside.mpi_ram ent.addr ent.count)
  call_entry-Adds t273 buf hw ent d = read_pci-Adds dev buf ent.addr ent.count d
  call_entry-Adds t274 buf hw ent d = entry_t274-Adds buf hw ent d
  call_entry-Adds t275 buf hw ent d = entry_t275-Adds buf hw ent d
  call_entry-Adds other buf hw ent d = Adds-refl d
