-- ===== src/Response/Entry/Account.antt =====
-- The slot of the handle and the completion of the SRB in qla2x00_status_entry (Response/Entry).
use scst_qla2xxx.Base.{
  ℕ, ◌<◌, ◌≡◌, refl, ap, ◌⊎◌, inl, inr, Bool, true, false, Option, none, some, List, ◌∷◌, arith,
  ◌&&◌, ◌∙◌, sym, ◌==◌, if◌then◌else◌, Bool-cases,
}
use mathlib.Core.Path.{subst}
use scst_qla2xxx.Base.Words.{lsw, msw, has}
use scst_qla2xxx.Adapter.{Adapter, Srb, scsi_cmd, ScsiCmnd, done, set_srb, free_slot}
use scst_qla2xxx.Adapter.Lost.Quiet.{
  Quiet, Quiet-trans, set_srb-Quiet, mark_device_lost-Quiet, set_retry_delay_timestamp-Quiet,
}
use scst_qla2xxx.Response.Packet.{Pkt, RspQue}
use scst_qla2xxx.Response.Handle.{process_completed_request, did_ok}
use scst_qla2xxx.Response.Sense.{handle_sense}
use scst_qla2xxx.Response.Status.{Others, Locals, locals, scsi_status_of, Outcome, outcome}
use scst_qla2xxx.Response.Entry.{
  conclude, delay_port, lose_port, report, dispatch, srb_of, valid_queue, status_entry, is_none,
  is_bidi, is_tm,
}

delay_port-Quiet :
    (others : Others) (ha : Adapter) (i : ℕ) (l : Locals) → Quiet ha (delay_port others ha i l)
unfolding delay_port
delay_port-Quiet others ha i l =
    ground (arith, set_retry_delay_timestamp-Quiet others.hz ha i l.retry_delay)

lose_port-Quiet : (ha : Adapter) (i : ℕ) (o : Outcome) → Quiet ha (lose_port ha i o)
unfolding lose_port
lose_port-Quiet ha i o = ground (arith, mark_device_lost-Quiet (ha.fcports i).vp_idx ha i true true)

-- Only this SRB comes to wait for sense data.
conclude_status_srb :
    (others : Others) (pkt : Pkt) (s : Srb) (sp : ℕ) (cp : ScsiCmnd) (l : Locals) (rsp : RspQue)
    → let rsp' = (conclude others pkt s sp cp l rsp).1 in
      (rsp'.status_srb ≡ rsp.status_srb) ⊎ (rsp'.status_srb ≡ some sp)
unfolding conclude handle_sense
conclude_status_srb others pkt s sp cp l rsp = ground arith

-- The SRB is completed once, with some result, or it waits for sense data. The list is that of the
-- completions before.
abbrev pub Settled : List (ℕ × ℕ) → ℕ → Adapter × RspQue → Type 0
Settled before sp r =
    ((r.1.status_srb ≡ none) × (res : ℕ) × (r.0.completions ≡ (sp, res) ∷ before))
    ⊎ ((r.1.status_srb ≡ some sp) × (r.0.completions ≡ before))

is_none-none : {o : Option ℕ} → o ≡ none → is_none o ≡ true
is_none-none e = ap is_none e

is_none-some : {o : Option ℕ} {x : ℕ} → o ≡ some x → is_none o ≡ false
is_none-some e = ap is_none e

-- The last lines: `done`, unless an SRB waits for sense data.
finish-Settled :
    (ha ha' : Adapter) (rsp : RspQue) (sp res : ℕ)
    → Quiet ha ha'
    → (rsp.status_srb ≡ none) ⊎ (rsp.status_srb ≡ some sp)
    → let r : Adapter × RspQue =
        if is_none rsp.status_srb then (done ha' sp res, rsp) else (ha', rsp) in
      Settled ha.completions sp r × (r.0.req_q_map ≡ ha.req_q_map)
unfolding done
finish-Settled ha ha' rsp sp res q (inl e) =
    rw (is_none-none e) (inl (e, res, ap (λ c. (sp, res) ∷ c) q.same_completions), q.same_queues)
finish-Settled ha ha' rsp sp res q (inr e) =
    rw (is_none-some e) (inr (e, q.same_completions), q.same_queues)

report-Settled :
    (others : Others) (ha : Adapter) (rsp : RspQue) (pkt : Pkt) (sp : ℕ) (s : Srb) (cp : ScsiCmnd)
    → rsp.status_srb ≡ none
    → let r = report others ha rsp pkt sp s cp in
      Settled ha.completions sp r × (r.0.req_q_map ≡ ha.req_q_map)
unfolding report
report-Settled others ha rsp pkt sp s cp none_yet =
    let l = locals ha.chip.fwi2_capable pkt in
    let c = conclude others pkt s sp cp l rsp in
    let delayed = delay_port others ha s.fcport l in
    let q = Quiet-trans (delay_port-Quiet others ha s.fcport l) (
      Quiet-trans (set_srb-Quiet delayed sp c.0)
        (lose_port-Quiet (set_srb delayed sp c.0) s.fcport (outcome l cp))) in
    finish-Settled ha _ c.1 sp c.2 q (ground (arith, conclude_status_srb others pkt s sp cp l rsp))

process_completed_request-done :
    (ha : Adapter) (que index sp : ℕ)
    → index < (ha.req_q_map que).num_outstanding_cmds
    → (ha.req_q_map que).outstanding_cmds index ≡ some sp
    → process_completed_request ha que index ≡ done (free_slot ha que index) sp did_ok
unfolding process_completed_request
process_completed_request-done ha que index sp lt e = ground arith

free_slot_lem :
    (ha : Adapter) (que index : ℕ)
    → (((free_slot ha que index).req_q_map que).outstanding_cmds index ≡ none)
      × ((free_slot ha que index).completions ≡ ha.completions)
unfolding free_slot
free_slot_lem ha que index = (ground arith, refl)

not_bidi : (a b : Bool) → (a && (b && false)) ≡ false
not_bidi true true = refl
not_bidi true false = refl
not_bidi false b = refl

srb_of_lem :
    (ha : Adapter) (que handle : ℕ) {sp : ℕ}
    → srb_of ha que handle ≡ some sp
    → (handle < (ha.req_q_map que).num_outstanding_cmds)
      × ((ha.req_q_map que).outstanding_cmds handle ≡ some sp)
srb_of_lem ha que handle e = ground arith

module _ (others : Others) (ha : Adapter) (rsp : RspQue) (pkt : Pkt) (sp : ℕ) (cp : ScsiCmnd) where
  -- The slot is free afterwards, and the SRB is completed once or waits.
  abbrev pub Accounted : ℕ → ℕ → Adapter × RspQue → Type 0
  Accounted que handle r =
      Settled ha.completions sp r × ((r.0.req_q_map que).outstanding_cmds handle ≡ none)

  complete-Accounted :
      (que handle : ℕ)
      → handle < (ha.req_q_map que).num_outstanding_cmds
      → (ha.req_q_map que).outstanding_cmds handle ≡ some sp
      → rsp.status_srb ≡ none
      → Accounted que handle (process_completed_request ha que handle, rsp)
  unfolding done
  complete-Accounted que handle lt e none_yet =
      let (freed, kept) = free_slot_lem ha que handle in
      rw (process_completed_request-done ha que handle sp lt e)
        (inl (none_yet, did_ok, ap (λ c. (sp, did_ok) ∷ c) kept), freed)

  report-Accounted :
      (que handle : ℕ)
      → rsp.status_srb ≡ none
      → Accounted que handle (report others (free_slot ha que handle) rsp pkt sp (ha.srbs sp) cp)
  report-Accounted que handle none_yet =
      let (freed, kept) = free_slot_lem ha que handle in
      let (settled, same) =
        report-Settled others (free_slot ha que handle) rsp pkt sp (ha.srbs sp) cp none_yet in
      (
        subst
            (λ cs.
              Settled cs sp (report others (free_slot ha que handle) rsp pkt sp (ha.srbs sp) cp))
            kept settled,
        ap (λ m. (m que).outstanding_cmds handle) same ∙ freed,
      )

  dispatch-Accounted :
      (que handle : ℕ)
      → handle < (ha.req_q_map que).num_outstanding_cmds
      → (ha.req_q_map que).outstanding_cmds handle ≡ some sp
      → (ha.srbs sp).type_of ≡ scsi_cmd
      → (ha.srbs sp).cmd ≡ some cp
      → rsp.status_srb ≡ none
      → Accounted que handle (dispatch others ha rsp pkt que handle sp)
  unfolding dispatch
  dispatch-Accounted que handle lt e t c none_yet =
      rw (ap is_bidi t, ap is_tm t, not_bidi ha.chip.fwi2_capable (has pkt.state_flags 2))
        (elim (Bool-cases (pkt.comp_status == 0 && scsi_status_of pkt == 0)) [
          | inl fast ↦ rw fast (complete-Accounted que handle lt e none_yet)
          | inr slow ↦ rw slow (
              subst
                (λ o. Accounted que handle (elim o [
                  | none ↦ (free_slot ha que handle, rsp)
                  | some cp' ↦ report others (free_slot ha que handle) rsp pkt sp (ha.srbs sp) cp'
                ]))
                (sym c) (report-Accounted que handle none_yet))
        ])

  -- When no SRB waits for sense data, a status entry that names a valid queue and the slot of an
  -- outstanding SCSI command frees the slot, and either completes the SRB exactly once or leaves
  -- it, uncompleted, as the one that waits for sense data.
  pub status_entry-Accounted :
      valid_queue ha (msw pkt.handle) ≡ true
      → srb_of ha (msw pkt.handle) (lsw pkt.handle) ≡ some sp
      → (ha.srbs sp).type_of ≡ scsi_cmd
      → (ha.srbs sp).cmd ≡ some cp
      → rsp.status_srb ≡ none
      → Accounted (msw pkt.handle) (lsw pkt.handle) (status_entry others ha rsp pkt)
  unfolding status_entry
  status_entry-Accounted q e t c none_yet =
      let (lt, slot) = srb_of_lem ha (msw pkt.handle) (lsw pkt.handle) e in
      rw (q, e) (dispatch-Accounted (msw pkt.handle) (lsw pkt.handle) lt slot t c none_yet)
