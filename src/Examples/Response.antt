-- ===== src/Examples/Response.antt =====
-- The theorems about responses and lost ports at concrete inputs.
use scst_qla2xxx.Base.{◌+◌, ◌≡◌, refl, true, false, none, some, [], ◌∷◌, arith, if◌then◌else◌, ◌==◌}
use scst_qla2xxx.Adapter.{Adapter, Srb, scsi_cmd, ScsiCmnd, device_lost}
use scst_qla2xxx.Adapter.Lost.{mark_device_lost}
use scst_qla2xxx.Adapter.Lost.Port.{mark_device_lost_lem}
use scst_qla2xxx.Response.Packet.{RspQue}
use scst_qla2xxx.Response.Handle.{did_bus_busy, error_entry, tm_iocb_entry}
use scst_qla2xxx.Response.Packet.{Pkt}
use scst_qla2xxx.Response.Handle.Errors.{InSlot, error_entry_completes, tm_iocb_entry_completes}
use scst_qla2xxx.Response.Sense.{handle_sense}
use scst_qla2xxx.Response.Sense.Bounds.{
  Waits, continue_all, continue_all_completes, handle_sense_lem,
}
use scst_qla2xxx.Response.Status.{Locals, outcome}
use scst_qla2xxx.Response.Status.Result.{MeetsUnderflow, outcome-did_ok}
use scst_qla2xxx.Response.Entry.{status_entry, valid_queue}
use scst_qla2xxx.Response.Entry.Account.{Accounted, status_entry-Accounted}
use scst_qla2xxx.Response.Process.{process_response_queue_2x00, process_response_queue_24xx}
use scst_qla2xxx.Response.Process.Drain.{
  IsRspRing, process_response_queue_2x00_drained, process_response_queue_24xx_drained,
}
use scst_qla2xxx.Examples.{command, srb, adapter, underrun_pkt, cont_pkt, responses, others}

responses-IsRspRing : IsRspRing responses
responses-IsRspRing = ground arith

slot_of_2 : valid_queue adapter 0 ≡ true
unfolding valid_queue
slot_of_2 = refl

status_entry-Accounted_example :
    Accounted others adapter responses underrun_pkt 0 command 0 2
      (status_entry others adapter responses underrun_pkt)
status_entry-Accounted_example =
    status_entry-Accounted others adapter responses underrun_pkt 0 command slot_of_2 refl refl refl
      refl

process_response_queue_24xx_drained_example :
    IsRspRing (process_response_queue_24xx others adapter responses).1
    × (((process_response_queue_24xx others adapter responses).1.ring
          (process_response_queue_24xx others adapter responses).1.ring_ptr).processed
        ≡ true)
    × ((process_response_queue_24xx others adapter responses).1.rsp_q_out
        ≡ (process_response_queue_24xx others adapter responses).1.ring_index)
process_response_queue_24xx_drained_example =
    process_response_queue_24xx_drained others adapter responses refl responses-IsRspRing

process_response_queue_2x00_drained_example :
    IsRspRing (process_response_queue_2x00 others adapter responses).1
    × (((process_response_queue_2x00 others adapter responses).1.ring
          (process_response_queue_2x00 others adapter responses).1.ring_ptr).processed
        ≡ true)
    × ((process_response_queue_2x00 others adapter responses).1.rsp_q_out
        ≡ (process_response_queue_2x00 others adapter responses).1.ring_index)
process_response_queue_2x00_drained_example =
    process_response_queue_2x00_drained others adapter responses refl responses-IsRspRing

-- The SRB 0 has 28 bytes of its sense data and waits for 68.
abbrev waiting_srb : Srb
waiting_srb = record (srb scsi_cmd) { request_sense_ptr = 28; request_sense_length = 68 }

abbrev waiting : Adapter
waiting = record adapter { srbs = λ sp. waiting_srb }

abbrev waiting_responses : RspQue
waiting_responses = record responses { status_srb = some 0 }

waits : Waits waiting waiting_responses 0 68 command
waits = ground arith

continue_all_completes_example :
    ((continue_all waiting waiting_responses (cont_pkt ∷ cont_pkt ∷ [])).0.completions
      ≡ (0, 0) ∷ [])
    × ((continue_all waiting waiting_responses (cont_pkt ∷ cont_pkt ∷ [])).1.status_srb ≡ none)
continue_all_completes_example =
    continue_all_completes (cont_pkt ∷ cont_pkt ∷ []) waiting waiting_responses 0 68 command waits
      (omega arith) (omega arith)

handle_sense_lem_example :
    let (s', rsp') = handle_sense command (srb scsi_cmd) 0 (λ j. j) 28 100 responses 2 in
    (s'.request_sense_ptr + s'.request_sense_length ≡ 96)
    × (s'.request_sense_ptr ≡ 28)
    × (rsp'.status_srb ≡ (if s'.request_sense_length == 0 then none else some 0))
handle_sense_lem_example = handle_sense_lem command (srb scsi_cmd) 0 (λ j. j) 28 100 responses 2

-- All but 512 of 2048 bytes arrived, and 1024 would have been enough.
abbrev short : Locals
short = record {
  fwi2 = true;
  comp_status = 0x15;
  scsi_status = 0x800;
  lscsi_status = 0;
  status_flags = 0;
  resid_len = 512;
  fw_resid_len = 512;
  retry_delay = 0;
  info_failed = false;
  sense_data = λ j. 0;
  sense_len = 0;
  par_sense_len = 28;
}

abbrev modest : ScsiCmnd
modest = record command { underflow = 1024 }

short_ok : ((outcome short modest).res ≡ 0) × ((outcome short modest).dif ≡ false)
unfolding outcome
short_ok = (refl, refl)

outcome-did_ok_example : MeetsUnderflow modest (outcome short modest).set_resid
outcome-did_ok_example = outcome-did_ok short modest short_ok.1 short_ok.0

mark_device_lost_lem_example :
    (((mark_device_lost 0 adapter 0 true true).fcports 0).state ≡ device_lost)
    × (((mark_device_lost 0 adapter 0 true true).fcports 0).login_retry ≡ 8)
    × ((mark_device_lost 0 adapter 0 true true).dpc_flags.relogin_needed ≡ true)
mark_device_lost_lem_example = mark_device_lost_lem 0 adapter 0 0 true true

abbrev error_pkt : Pkt
error_pkt = record underrun_pkt { entry_status = 2 }

in_slot : InSlot adapter 0 error_pkt 0
in_slot = ground arith

error_entry_completes_example :
    ((error_entry adapter error_pkt).completions ≡ (0, did_bus_busy) ∷ [])
    × (((error_entry adapter error_pkt).req_q_map 0).outstanding_cmds 2 ≡ none)
error_entry_completes_example = error_entry_completes adapter error_pkt 0 (omega arith) refl in_slot

tm_iocb_entry_completes_example :
    ((tm_iocb_entry adapter 0 error_pkt).completions ≡ (0, 0) ∷ [])
    × (((tm_iocb_entry adapter 0 error_pkt).req_q_map 0).outstanding_cmds 2 ≡ none)
    × (((tm_iocb_entry adapter 0 error_pkt).srbs 0).tmf_data ≡ 0x102)
tm_iocb_entry_completes_example = tm_iocb_entry_completes adapter 0 error_pkt 0 in_slot
