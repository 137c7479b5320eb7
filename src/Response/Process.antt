-- ===== src/Response/Process.antt =====
-- The loops over the response ring: qla2x00_process_response_queue and
-- qla24xx_process_response_queue of drivers/scsi/qla2xxx/qla_isr.c. The fuel is the ring's
-- length: every round marks one entry.
pub mod Drain
use scst_qla2xxx.Base.{ℕ, zero, suc, ◌+◌, Bool, true, false, not, ◌||◌, ◌==◌, if◌then◌else◌}
use scst_qla2xxx.Base.Mem.{update}
use scst_qla2xxx.Adapter.{Adapter}
use scst_qla2xxx.Response.Packet.{Pkt, RspQue, next_entry}
use scst_qla2xxx.Response.Handle.{process_completed_request, abort_iocb_entry, error_entry}
use scst_qla2xxx.Response.Sense.{status_cont_entry}
use scst_qla2xxx.Response.Status.{Others}
use scst_qla2xxx.Response.Entry.{status_entry}

-- `for (cnt = 0; cnt < handle_cnt; cnt++)` of the types 21 and 22; `left` rounds are to come.
complete_handles : Adapter → ℕ → (ℕ → ℕ) → ℕ → ℕ → Adapter
complete_handles ha que handles cnt zero = ha
complete_handles ha que handles cnt (suc left) =
    complete_handles (process_completed_request ha que (handles cnt)) que handles (cnt + 1) left

-- The switch on `entry_type`, for chips before ISP24xx: CT_IOCB_TYPE and MBX_IOCB_TYPE are handled
-- elsewhere.
handle_2x00 : Others → Adapter → RspQue → Pkt → Adapter × RspQue
unfolding complete_handles
handle_2x00 others ha rsp pkt =
    if pkt.entry_type == 0x03
    then status_entry others ha rsp pkt
    else if pkt.entry_type == 0x21 || pkt.entry_type == 0x22
    then (complete_handles ha rsp.req pkt.handles 0 pkt.handle_count, rsp)
    else if pkt.entry_type == 0x10
    then status_cont_entry ha rsp pkt
    else if pkt.entry_type == 0x39 || pkt.entry_type == 0x29
    then (others.other_entry ha pkt.entry_type pkt, rsp)
    else (ha, rsp)

-- The same for ISP24xx and later. A marker's entry changes nothing, as one of an unknown type.
handle_24xx : Others → Adapter → RspQue → Pkt → Adapter × RspQue
handle_24xx others ha rsp pkt =
    if pkt.entry_type == 0x03
    then status_entry others ha rsp pkt
    else if pkt.entry_type == 0x10
    then status_cont_entry ha rsp pkt
    else if pkt.entry_type == 0x32
        || (pkt.entry_type == 0x52 || (pkt.entry_type == 0x29 || pkt.entry_type == 0x53))
    then (others.other_entry ha pkt.entry_type pkt, rsp)
    else if pkt.entry_type == 0x33
    then (abort_iocb_entry ha rsp.req pkt, rsp)
    else (ha, rsp)

-- One round: the pointer is moved on before the entry is handled, and the entry is marked at last.
round : (Adapter → RspQue → Pkt → Adapter × RspQue) → Adapter → RspQue → Adapter × RspQue
round handle ha rsp =
    let pkt = rsp.ring rsp.ring_ptr in
    let moved = next_entry rsp in
    let (ha', rsp') =
      if not (pkt.entry_status == 0) then (error_entry ha pkt, moved) else handle ha moved pkt in
    (ha', record rsp' { ring = update rsp'.ring rsp.ring_ptr (record pkt { processed = true }) })

drain : (Adapter → RspQue → Pkt → Adapter × RspQue) → ℕ → Adapter → RspQue → Adapter × RspQue
drain handle zero ha rsp = (ha, rsp)
drain handle (suc fuel) ha rsp = elim (rsp.ring rsp.ring_ptr).processed [
  | true ↦ (ha, rsp)
  | false ↦ let (ha', rsp') = round handle ha rsp in drain handle fuel ha' rsp'
]

-- The chip is told how far the driver has read.
write_out : Adapter × RspQue → Adapter × RspQue
write_out (ha, rsp) = (ha, record rsp { rsp_q_out = rsp.ring_index })

unfoldable pub process_response_queue_2x00 : Others → Adapter → RspQue → Adapter × RspQue
unfolding handle_2x00 round drain write_out
process_response_queue_2x00 others ha rsp =
    if not ha.online then (ha, rsp) else write_out (drain (handle_2x00 others) rsp.length ha rsp)

unfoldable pub process_response_queue_24xx : Others → Adapter → RspQue → Adapter × RspQue
unfolding handle_24xx round drain write_out
process_response_queue_24xx others ha rsp =
    if not ha.online then (ha, rsp) else write_out (drain (handle_24xx others) rsp.length ha rsp)
