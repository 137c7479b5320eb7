-- ===== src/Request/Start/Safe.antt =====
-- The part that the two functions of Request/Start share, on success and on failure.
use scst_qla2xxx.Base.{
  ℕ, ◌+◌, ◌<◌, ◌≤◌, ◌≡◌, refl, sym, ap, ◌∙◌, ◌⊎◌, inl, inr, true, false, none, some, [], arith,
  Option-cases,
}
use mathlib.Core.Path.{subst, subst₂, ap₂}
use scst_qla2xxx.Base.Lists.{length}
use scst_qla2xxx.Base.Mem.{update}
use scst_qla2xxx.Request.Queue.{Ring, ReqQue}
use scst_qla2xxx.Request.Handles.{HasSlots}
use scst_qla2xxx.Request.Ring.{IsRing, advance, advance-advance}
use scst_qla2xxx.Request.Segments.Outside.{IsOutside, KeepsOthers, advance_in, advance_distinct}
use scst_qla2xxx.Request.Segments.{Cont, fw_segments}
use scst_qla2xxx.Request.Segments.ReadBack.{AllFit}
use scst_qla2xxx.Request.Build.{no_data}
use scst_qla2xxx.Request.Build.Segs.{Built}
use scst_qla2xxx.Request.Room.Safe.{Fits, Fits-index}
use scst_qla2xxx.Adapter.{ScsiCmnd, Adapter, set_req, set_srb}
use scst_qla2xxx.Request.Start.{dsds, reserve, Flavour, take_entries, queue_command, start_locked}
use scst_qla2xxx.Request.Start.Queued.{
  SameBut, reserve-Reserved, Builds, queue_command-Queued, Queued-Fits,
}
use scst_qla2xxx.Request.Start.Builds.{BuildsAll, queue_command_reads}

-- After a success, `req'` is the queue, of which the chip has read up to `out`: the handle was a free
-- slot and is the SRB's now, the command's entries are the only new ones, two more are free, and the
-- chip reads the scatter list from the entry that the pointer was at. Every word of every other entry of
-- the ring is kept, those of the `used` entries that the chip has not read among them.
pub record Started (c : Cont) (w avail need out used sp : ℕ) (req req' : ReqQue) (cmd : ScsiCmnd)
    : Type 0 where
  pub handle : ℕ
  pub in_range : (0 < handle) × (handle < req.num_outstanding_cmds)
  pub was_free : req.outstanding_cmds handle ≡ none
  pub registered : req'.outstanding_cmds ≡ update req.outstanding_cmds handle (some sp)
  pub fits : Fits req' out (used + need)
  pub spare : used + need + 2 ≤ req.length
  pub told : req'.req_q_in ≡ req'.ring_index
  pub others : KeepsOthers req.length req.ring_index need req.ring req'.ring
  pub unread :
      (k x : ℕ)
      → k < used
      → req'.ring (advance req.length out k) x ≡ req.ring (advance req.length out k) x
  pub reads : fw_segments c req'.ring req.length req.ring_ptr w avail (length (dsds cmd)) ≡ dsds cmd

-- After a failure.
pub record Refused (out used : ℕ) (req req' : ReqQue) : Type 0 where
  pub fits : Fits req' out used
  pub same : SameBut req req'

-- An entry that the chip has not read is none of those that there was room for.
unread-IsOutside :
    (req : ReqQue) (out used need k : ℕ)
    → Fits req out used
    → used + need + 2 ≤ req.length
    → k < used
    → IsOutside req.length req.ring_index need (advance req.length out k)
unread-IsOutside req out used need k f room lt = record {
  inside = advance_in req.length out k (omega (arith, f.out_in));
  not_taken = λ j less p.
      advance_distinct req.length out k (used + j) f.out_in (omega arith) (omega arith) (
        sym (advance-advance req.length out used j)
        ∙ ap (λ i. advance req.length i j) (sym (Fits-index req out used f))
        ∙ p);
}

same-KeepsOthers :
    (need : ℕ) (req looked : ReqQue) (m : Ring)
    → SameBut req looked
    → KeepsOthers looked.length looked.ring_index need looked.ring m
    → KeepsOthers req.length req.ring_index need req.ring m
same-KeepsOthers need req looked m s o e x out =
    o e x (record {
      inside = omega (arith, out.inside, s.same_length);
      not_taken = λ j lt p.
          out.not_taken j lt
            (ap₂ (λ len at. advance len at j) (sym s.same_length) (sym s.same_index) ∙ p);
    })
    ∙ ap (λ ring. ring e x) s.same_ring

take_entries-IsRing :
    (f : Flavour) (req : ReqQue) (handle sp : ℕ) (cmd : ScsiCmnd)
    → IsRing req
    → IsRing (take_entries f req handle sp cmd)
unfolding take_entries
take_entries-IsRing f req handle sp cmd v = ground arith

take_entries_length :
    (f : Flavour) (req : ReqQue) (handle sp : ℕ) (cmd : ScsiCmnd)
    → (take_entries f req handle sp cmd).length ≡ req.length
unfolding take_entries
take_entries_length f req handle sp cmd = refl

Built-Builds :
    (c : Cont) (w avail need : ℕ) (taken built : ReqQue) (cmd : ScsiCmnd)
    → Built c w avail need taken built cmd
    → Builds need taken built
Built-Builds c w avail need taken built cmd b = record {
  ring = b.ring;
  keeps = b.keeps;
  index = b.index;
  some_entry = b.some_entry;
  others = b.others;
}

start_locked_queue :
    (f : Flavour) (ha : Adapter) (que out sp : ℕ) (cmd : ScsiCmnd)
    → let (looked, found) = reserve f.calc (ha.req_q_map que) out cmd in
      let (ha', started) = start_locked f ha que out sp cmd in
      ((started ≡ false) × (found ≡ none) × (ha'.req_q_map que ≡ looked))
      ⊎ ((handle : ℕ) × (found ≡ some handle)
          × (ha'.req_q_map que ≡ (queue_command f ha.qla_stats looked handle sp cmd).1)
          × (started ≡ true))
unfolding start_locked set_req set_srb
start_locked_queue f ha que out sp cmd =
    elim (Option-cases (reserve f.calc (ha.req_q_map que) out cmd).1) [
      | inl e ↦ inl (ground arith)
      | inr (h, e) ↦ inr (h, e, ground arith, ground arith)
    ]

module _ (f : Flavour) (c : Cont) (w avail : ℕ) (pos : 0 < w) (all : BuildsAll f c w avail)
    (ha : Adapter) (que out used sp : ℕ) (cmd : ScsiCmnd) (v : Fits (ha.req_q_map que) out used)
    (slots : HasSlots (ha.req_q_map que)) where
  abbrev need : ℕ
  need = f.calc (length (dsds cmd))

  pub start_locked-Refused :
      (start_locked f ha que out sp cmd).1 ≡ false
      → Refused out used (ha.req_q_map que) ((start_locked f ha que out sp cmd).0.req_q_map que)
  start_locked-Refused no_start =
      let r = reserve-Reserved f.calc (ha.req_q_map que) out used cmd v slots in
      elim (start_locked_queue f ha que out sp cmd) [
        | inl (s, n, q) ↦
            subst (Refused out used (ha.req_q_map que)) (sym q)
              (record { fits = r.fits; same = r.same })
        | inr (h, n, q, s) ↦ absurd (ground arith)
      ]

  pub start_locked-Started :
      (no_data cmd ≡ false) ⊎ (dsds cmd ≡ [])
      → length (dsds cmd) < 65536
      → AllFit c (dsds cmd)
      → (start_locked f ha que out sp cmd).1 ≡ true
      → Started c w avail need out used sp
          (ha.req_q_map que)
          ((start_locked f ha que out sp cmd).0.req_q_map que)
          cmd
  start_locked-Started data_or small fit start =
      let req = ha.req_q_map que in
      let r = reserve-Reserved f.calc req out used cmd v slots in
      let looked = (reserve f.calc req out cmd).0 in
      elim (start_locked_queue f ha que out sp cmd) [
        | inl (s, n, q) ↦ absurd (ground arith)
        | inr (h, n, q, s) ↦
            let (room, enough) = r.room h n in
            let (pos', below, free) = r.slot h n in
            let taken = take_entries f looked h sp cmd in
            let b =
              all ha.qla_stats taken (record cmd { mapped = dsds cmd })
                (take_entries-IsRing f looked h sp cmd r.fits.ring) data_or small
                (omega (arith, take_entries_length f looked h sp cmd, r.same.same_length)) fit in
            let done =
              queue_command-Queued f ha.qla_stats looked h sp cmd r.fits.ring
                (Built-Builds c w avail need taken _ (record cmd { mapped = dsds cmd }) b) in
            subst (λ req'. Started c w avail need out used sp req req' cmd) (sym q)
              (record {
                handle = h;
                in_range = (pos', below);
                was_free = free;
                registered = done.slots ∙ ap (λ m. update m h (some sp)) r.same.same_cmds;
                fits =
                    Queued-Fits need looked _ out used h sp r.fits
                      (omega (arith, r.same.same_length)) enough done;
                spare = room;
                told = done.told;
                others = same-KeepsOthers need req looked _ r.same done.others;
                unread = λ k x lt.
                    same-KeepsOthers need req looked _ r.same done.others (advance req.length out k)
                      x (unread-IsOutside req out used need k v room lt);
                reads =
                    subst₂
                      (λ len ptr.
                        fw_segments c (queue_command f ha.qla_stats looked h sp cmd).1.ring len ptr
                          w avail (length (dsds cmd))
                        ≡ dsds cmd)
                      r.same.same_length r.same.same_ptr
                      (queue_command_reads f c w avail ha.qla_stats looked h sp cmd pos b);
              })
      ]
