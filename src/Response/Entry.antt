-- ===== src/Response/Entry.antt =====
-- The handler qla2x00_status_entry of drivers/scsi/qla2xxx/qla_isr.c, and the search of the queue
-- ids that it makes.
pub mod Account
pub mod Reads
use scst_qla2xxx.Base.{
  ℕ, zero, suc, ◌+◌, Bool, true, false, Option, none, some, not, ◌&&◌, ◌||◌, ltb, leb, ◌==◌,
  if◌then◌else◌,
}
use scst_qla2xxx.Base.Bitmap.{first_zero}
use scst_qla2xxx.Base.Words.{lsw, msw, has}
use scst_qla2xxx.Adapter.{
  Adapter, Srb, SrbType, bidi_cmd, tm_cmd, ScsiCmnd, done, set_srb, free_slot,
}
use scst_qla2xxx.Adapter.Lost.{
  need_reset, wake_dpc, is_online, mark_device_lost, set_retry_delay_timestamp,
}
use scst_qla2xxx.Response.Packet.{Pkt, RspQue}
use scst_qla2xxx.Response.Handle.{process_completed_request, tm_iocb_entry}
use scst_qla2xxx.Response.Sense.{handle_sense, sense_buffersize}
use scst_qla2xxx.Response.Status.{
  Others, Locals, locals, scsi_status_of, Outcome, outcome, task_set_full, sam_busy,
}

abbrev pub is_bidi : SrbType → Bool
is_bidi bidi_cmd = true
is_bidi _ = false

abbrev pub is_tm : SrbType → Bool
is_tm tm_cmd = true
is_tm _ = false

abbrev pub is_none {ℓ} : {A : Type ℓ} → Option A → Bool
is_none none = true
is_none (some _) = false

-- The command with the residual set and the sense buffer cleared, as the switch decided.
prepared : Outcome → ScsiCmnd → ScsiCmnd
prepared o cp = record cp {
  resid = elim o.set_resid [ none ↦ cp.resid | some r ↦ r ];
  sense_buffer =
      if o.clear_sense
      then (λ j. if ltb j sense_buffersize then 0 else cp.sense_buffer j)
      else cp.sense_buffer;
}

-- The SRB, the response queue and the result after the switch.
conclude : Others → Pkt → Srb → ℕ → ScsiCmnd → Locals → RspQue → Srb × RspQue × ℕ
unfolding prepared
conclude others pkt s sp cp l rsp =
    let o = outcome l cp in
    let cp' = prepared o cp in
    if o.dif
    then (let judged = others.handle_dif_error cp' pkt in
        (record s { cmd = some judged }, rsp, judged.result))
    else if o.copy_sense
    then (let (s', rsp') =
          handle_sense cp' s sp l.sense_data l.par_sense_len l.sense_len rsp o.res in
        (s', rsp', o.res))
    else (record s { cmd = some cp' }, rsp, o.res)

delay_port : Others → Adapter → ℕ → Locals → Adapter
delay_port others ha port l =
    if not l.info_failed && (l.lscsi_status == task_set_full || l.lscsi_status == sam_busy)
    then set_retry_delay_timestamp others.hz ha port l.retry_delay
    else ha

lose_port : Adapter → ℕ → Outcome → Adapter
lose_port ha port o =
    if o.lost && is_online (ha.fcports port).state
    then mark_device_lost (ha.fcports port).vp_idx ha port true true
    else ha

-- From "lscsi_status = " to the end; `s` is the SRB, and `cp` its command.
report : Others → Adapter → RspQue → Pkt → ℕ → Srb → ScsiCmnd → Adapter × RspQue
unfolding conclude delay_port lose_port done set_srb
report others ha rsp pkt sp s cp =
    let l = locals ha.chip.fwi2_capable pkt in
    let (s', rsp', res) = conclude others pkt s sp cp l rsp in
    let ha' = lose_port (set_srb (delay_port others ha s.fcport l) sp s') s.fcport (outcome l cp) in
    if is_none rsp'.status_srb then (done ha' sp res, rsp') else (ha', rsp')

-- The entry names the SRB `sp`, which is in the slot `handle` of the queue `que`.
dispatch : Others → Adapter → RspQue → Pkt → ℕ → ℕ → ℕ → Adapter × RspQue
unfolding report
dispatch others ha rsp pkt que handle sp =
    let s = ha.srbs sp in
    if ha.chip.fwi2_capable && (has pkt.state_flags 2 && is_bidi s.type_of)
    then (others.process_bidir_status_iocb ha pkt que handle, rsp)
    else if is_tm s.type_of
    then (tm_iocb_entry ha que pkt, rsp)
    else if pkt.comp_status == 0 && scsi_status_of pkt == 0
    then (process_completed_request ha que handle, rsp)
    else elim s.cmd [
      | none ↦ (free_slot ha que handle, rsp)
      | some cp ↦ report others (free_slot ha que handle) rsp pkt sp s cp
    ]

-- "Invalid status handle"
no_srb : Adapter → Adapter
unfolding need_reset wake_dpc
no_srb ha = if ha.dpc_flags.abort_isp_active then ha else wake_dpc (need_reset ha)

-- The SRB of a handle that is in range.
abbrev pub srb_of : Adapter → ℕ → ℕ → Option ℕ
srb_of ha que handle =
    let req = ha.req_q_map que in
    if ltb handle req.num_outstanding_cmds then req.outstanding_cmds handle else none

-- The queue id is one of those in use.
unfoldable pub valid_queue : Adapter → ℕ → Bool
unfolding first_zero
valid_queue ha que = ha.req_q_present que && ltb que (first_zero ha.req_qid_map ha.max_req_queues 0)

unfoldable pub status_entry : Others → Adapter → RspQue → Pkt → Adapter × RspQue
unfolding dispatch no_srb
status_entry others ha rsp pkt =
    let handle = lsw pkt.handle in
    let que = msw pkt.handle in
    if not (valid_queue ha que) then (ha, rsp) else elim (srb_of ha que handle) [
      | none ↦ (no_srb ha, rsp)
      | some sp ↦ dispatch others ha rsp pkt que handle sp
    ]
