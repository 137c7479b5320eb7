-- ===== src/Response/Handle.antt =====
-- From a handle to its SRB: qla2x00_process_completed_request, qla2x00_get_sp_from_handle,
-- qla24xx_tm_iocb_entry, qla24xx_abort_iocb_entry and qla2x00_error_entry of
-- drivers/scsi/qla2xxx/qla_isr.c.
pub mod Errors
use scst_qla2xxx.Base.{ℕ, Option, none, some, not, ◌||◌, ltb, leb, ◌==◌, if◌then◌else◌}
use scst_qla2xxx.Base.Words.{lsw, msw, has}
use scst_qla2xxx.Adapter.{Adapter, done, set_srb, free_slot}
use scst_qla2xxx.Adapter.Lost.{need_reset, wake_dpc}
use scst_qla2xxx.Response.Packet.{Pkt}

-- DID_OK, DID_BUS_BUSY, DID_ERROR, DID_RESET and DID_TRANSPORT_DISRUPTED, shifted by 16.
abbrev pub did_ok : ℕ
did_ok = 0

abbrev pub did_bus_busy : ℕ
did_bus_busy = 0x20000

abbrev pub did_error : ℕ
did_error = 0x70000

abbrev pub did_reset : ℕ
did_reset = 0x80000

abbrev pub did_transport_disrupted : ℕ
did_transport_disrupted = 0xe0000

unfoldable pub process_completed_request : Adapter → ℕ → ℕ → Adapter
unfolding done free_slot need_reset
process_completed_request ha que index =
    let req = ha.req_q_map que in
    if leb req.num_outstanding_cmds index
    then need_reset ha
    else elim (req.outstanding_cmds index) [
      | some sp ↦ done (free_slot ha que index) sp did_ok
      | none ↦ need_reset ha
    ]

-- The SRB of a slot, if the SRB has the slot's number as its handle; the slot is freed.
take_slot : Adapter → ℕ → ℕ → Adapter × Option ℕ
unfolding free_slot
take_slot ha que index = elim ((ha.req_q_map que).outstanding_cmds index) [
  | none ↦ (ha, none)
  | some sp ↦ if (ha.srbs sp).handle == index then (free_slot ha que index, some sp) else (ha, none)
]

unfoldable pub get_sp_from_handle : Adapter → ℕ → Pkt → Adapter × Option ℕ
unfolding take_slot need_reset
get_sp_from_handle ha que pkt =
    let index = lsw pkt.handle in
    if leb (ha.req_q_map que).num_outstanding_cmds index
    then (need_reset ha, none)
    else take_slot ha que index

-- QLA_SUCCESS and QLA_FUNCTION_FAILED of `iocb->u.tmf.data`. The response's fourth byte is read
-- from `data` as it came.
tmf_result : Pkt → ℕ
tmf_result sts =
    if not (sts.entry_status == 0)
    then 0x102
    else if not (sts.comp_status == 0)
    then 0x102
    else if has sts.scsi_status 0x100
    then (if ltb sts.rsp_data_len 4 then 0 else if not (sts.data_24xx 3 == 0) then 0x102 else 0)
    else 0

unfoldable pub tm_iocb_entry : Adapter → ℕ → Pkt → Adapter
unfolding get_sp_from_handle tmf_result set_srb done
tm_iocb_entry ha que pkt =
    let (ha', found) = get_sp_from_handle ha que pkt in
    elim found [
      | none ↦ ha'
      | some sp ↦ done (set_srb ha' sp (record (ha'.srbs sp) { tmf_data = tmf_result pkt })) sp 0
    ]

-- The completion status lies where a status entry has it.
unfoldable pub abort_iocb_entry : Adapter → ℕ → Pkt → Adapter
unfolding get_sp_from_handle set_srb done
abort_iocb_entry ha que pkt =
    let (ha', found) = get_sp_from_handle ha que pkt in
    elim found [
      | none ↦ ha'
      | some sp ↦
          done (set_srb ha' sp (record (ha'.srbs sp) { abt_comp_status = pkt.comp_status })) sp 0
    ]

-- The label `fatal`.
fatal : Adapter → Adapter
unfolding need_reset wake_dpc
fatal ha = wake_dpc (need_reset ha)

unfoldable pub error_entry : Adapter → Pkt → Adapter
unfolding get_sp_from_handle done fatal
error_entry ha pkt =
    let que = msw pkt.handle in
    let res = if has pkt.entry_status 2 then did_bus_busy else did_error in
    let (ha', found) = get_sp_from_handle ha que pkt in
    if leb ha.max_req_queues que || not (ha.req_q_present que)
    then fatal ha
    else elim found [ some sp ↦ done ha' sp res | none ↦ fatal ha' ]
