-- ===== src/Examples.antt =====
-- Small queues, commands and adapters on which the theorems are tried.
mod Request
mod Response
mod Template
mod Vport
mod Idc
mod Login
use scst_qla2xxx.Base.{ℕ, Bool, true, false, Option, none, some, List, [], ◌∷◌, ◌==◌, if◌then◌else◌}
use scst_qla2xxx.Request.Queue.{ReqQue}
use scst_qla2xxx.Request.Segments.{Sg}
use scst_qla2xxx.Adapter.{
  Chip, dma_to_device, head_of_queue_tag, ScsiCmnd, Srb, SrbType, scsi_cmd, other_cmd, PortState,
  online, FcPort, DpcFlags, Stats, Adapter,
}
use scst_qla2xxx.Response.Packet.{Pkt, RspQue}
use scst_qla2xxx.Response.Status.{Others}

-- Eight entries, of which the chip has not read entry 5; the count has not been looked up for a
-- while. Slot 2 is taken by the SRB 0.
abbrev queue : ReqQue
queue = record {
  ring = λ e w. 0;
  ring_ptr = 6;
  req_q_in = 6;
  ring_index = 6;
  cnt = 1;
  length = 8;
  id = 0;
  outstanding_cmds = λ h. if h == 2 then some 0 else none;
  current_outstanding_cmd = 1;
  num_outstanding_cmds = 4;
}

-- Every slot but slot 0 is taken.
abbrev busy_queue : ReqQue
busy_queue = record queue { outstanding_cmds = λ h. if h == 0 then none else some h }

abbrev sg : ℕ → ℕ → Sg
sg a n = record { dma_address = a; dma_len = n }

-- A write of three segments.
abbrev command : ScsiCmnd
command = record {
  sg_count = 3;
  mapped = sg 4096 512 ∷ sg 8192 512 ∷ sg 4294963200 1024 ∷ [];
  bufflen = 2048;
  direction = dma_to_device;
  lun = 1;
  cmnd = 0x2A ∷ 0 ∷ 0 ∷ 0 ∷ 0 ∷ 7 ∷ 0 ∷ 0 ∷ 4 ∷ 0 ∷ [];
  tag = some head_of_queue_tag;
  underflow = 2048;
  resid = 0;
  result = 0;
  host_scribble = 0;
  sense_buffer = λ j. 0;
}

abbrev chip_24xx : Chip
chip_24xx = record {
  fwi2_capable = true;
  qlafx00 = false;
  p3p_type = false;
  extended_ids = true;
  pi_split_det_capable = false;
}

abbrev srb : SrbType → Srb
srb type_of = record {
  fcport = 0;
  type_of = type_of;
  handle = 2;
  iocbs = 20;
  dma_valid = true;
  cmd = some command;
  request_sense_length = 0;
  request_sense_ptr = 0;
  tmf_data = 0;
  abt_comp_status = 0;
}

abbrev port : FcPort
port = record {
  loop_id = 9;
  domain = 1;
  area = 2;
  al_pa = 3;
  vp_idx = 0;
  state = online;
  rport = true;
  drport = false;
  login_retry = 0;
  retry_delay_timestamp = 0;
}

-- The SRB 0 carries a command, the SRB 1 another IOCB.
abbrev adapter : Adapter
adapter = record {
  chip = chip_24xx;
  req_q_map = λ que. queue;
  req_q_present = λ que. true;
  req_qid_map = λ que. que == 0;
  max_req_queues = 1;
  vha_req = 0;
  portnum = 0;
  vp_idx = 0;
  srbs = λ sp. if sp == 1 then srb other_cmd else srb scsi_cmd;
  fcports = λ i. port;
  login_retry_count = 8;
  online = true;
  process_response_queue_flag = true;
  marker_needed = false;
  dpc_flags = record {
    isp_abort_needed = false;
    fcoe_ctx_reset_needed = false;
    abort_isp_active = false;
    fcport_update_needed = false;
    relogin_needed = false;
  };
  dpc_woken = false;
  qla_stats = record { output_bytes = 0; output_requests = 0; input_bytes = 0; input_requests = 0 };
  jiffies = 1000;
  completions = [];
  rport_deletes = 0;
}

abbrev busy_adapter : Adapter
busy_adapter = record adapter { req_q_map = λ que. busy_queue }

-- An underrun of 1024 bytes with a check condition, for the handle 2 of the queue 0.
abbrev underrun_pkt : Pkt
underrun_pkt = record {
  processed = false;
  entry_type = 0x03;
  entry_status = 0;
  handle = 2;
  comp_status = 0x15;
  scsi_status = 0xA02;
  state_flags = 0;
  status_flags = 0;
  rsp_info_len = 0;
  req_sense_length = 0;
  residual_length = 0;
  rsp_info = λ j. 0;
  req_sense_data = λ j. 0;
  residual_len = 1024;
  retry_delay = 0;
  rsp_residual_count = 1024;
  sense_len = 96;
  rsp_data_len = 0;
  data_24xx = λ j. j;
  handle_count = 0;
  handles = λ j. 0;
  cont_data = λ j. j;
}

abbrev cont_pkt : Pkt
cont_pkt = record underrun_pkt { entry_type = 0x10 }

abbrev done_pkt : Pkt
done_pkt = record underrun_pkt { processed = true }

-- Two entries of four are to be processed, round the end of the ring.
abbrev responses : RspQue
responses = record {
  ring = λ e. if e == 3 then underrun_pkt else if e == 0 then cont_pkt else done_pkt;
  ring_ptr = 3;
  ring_index = 3;
  length = 4;
  id = 0;
  req = 0;
  rsp_q_out = 3;
  status_srb = none;
}

abbrev others : Others
others = record {
  hz = 250;
  process_bidir_status_iocb = λ ha pkt que handle. ha;
  handle_dif_error = λ cp pkt. cp;
  other_entry = λ ha type_of pkt. ha;
}
