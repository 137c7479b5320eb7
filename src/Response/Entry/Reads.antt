-- ===== src/Response/Entry/Reads.antt =====
-- The response queue in qla2x00_status_entry (Response/Entry).
use scst_qla2xxx.Base.{ℕ, ◌≡◌, arith, Option-cases, inl, inr}
use scst_qla2xxx.Base.Words.{lsw, msw}
use scst_qla2xxx.Adapter.{Adapter, Srb, ScsiCmnd, free_slot}
use scst_qla2xxx.Response.Packet.{Pkt, RspQue}
use scst_qla2xxx.Response.Sense.{handle_sense, status_cont_entry}
use scst_qla2xxx.Response.Status.{Others, Locals, locals}
use scst_qla2xxx.Response.Entry.{conclude, report, dispatch, status_entry, srb_of}

-- What a handler leaves of the response queue: all but `status_srb`.
pub record Reads (rsp rsp' : RspQue) : Type 0 where
  pub same_ring : rsp'.ring ≡ rsp.ring
  pub same_ptr : rsp'.ring_ptr ≡ rsp.ring_ptr
  pub same_index : rsp'.ring_index ≡ rsp.ring_index
  pub same_length : rsp'.length ≡ rsp.length

-- The response queue that a handler returns.
pub record Leaves (rsp : RspQue) (r : Adapter × RspQue) : Type 0 where
  pub reads : Reads rsp r.1

pub Leaves-refl : (ha : Adapter) (rsp : RspQue) → Leaves rsp (ha, rsp)
Leaves-refl ha rsp = ground arith

conclude-Reads :
    (others : Others) (pkt : Pkt) (s : Srb) (sp : ℕ) (cp : ScsiCmnd) (l : Locals) (rsp : RspQue)
    → Reads rsp (conclude others pkt s sp cp l rsp).1
unfolding conclude handle_sense
conclude-Reads others pkt s sp cp l rsp = ground arith

report-Leaves :
    (others : Others) (ha : Adapter) (rsp : RspQue) (pkt : Pkt) (sp : ℕ) (s : Srb) (cp : ScsiCmnd)
    → Leaves rsp (report others ha rsp pkt sp s cp)
unfolding report
report-Leaves others ha rsp pkt sp s cp =
    ground (arith, conclude-Reads others pkt s sp cp (locals ha.chip.fwi2_capable pkt) rsp)

dispatch-Leaves :
    (others : Others) (ha : Adapter) (rsp : RspQue) (pkt : Pkt) (que handle sp : ℕ)
    → Leaves rsp (dispatch others ha rsp pkt que handle sp)
unfolding dispatch
dispatch-Leaves others ha rsp pkt que handle sp = elim (Option-cases (ha.srbs sp).cmd) [
  | inl e ↦ ground arith
  | inr (cp, e) ↦
      ground (arith, report-Leaves others (free_slot ha que handle) rsp pkt sp (ha.srbs sp) cp)
]

pub status_entry-Leaves :
    (others : Others) (ha : Adapter) (rsp : RspQue) (pkt : Pkt)
    → Leaves rsp (status_entry others ha rsp pkt)
unfolding status_entry
status_entry-Leaves others ha rsp pkt =
    elim (Option-cases (srb_of ha (msw pkt.handle) (lsw pkt.handle))) [
      | inl e ↦ ground arith
      | inr (sp, e) ↦
          ground (arith, dispatch-Leaves others ha rsp pkt (msw pkt.handle) (lsw pkt.handle) sp)
    ]

pub status_cont_entry-Leaves :
    (ha : Adapter) (rsp : RspQue) (pkt : Pkt) → Leaves rsp (status_cont_entry ha rsp pkt)
unfolding status_cont_entry
status_cont_entry-Leaves ha rsp pkt = ground arith
