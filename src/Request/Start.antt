-- ===== src/Request/Start.antt =====
-- A SCSI command from the mid layer to the chip: qla2x00_start_scsi and qla24xx_start_scsi of
-- drivers/scsi/qla2xxx/qla_iocb.c.
pub mod Queued
pub mod Builds
pub mod Safe
pub mod Commands
use scst_qla2xxx.Base.{
  ℕ, ◌+◌, ◌-◌, ◌*◌, Bool, true, false, not, Option, none, some, List, [], ◌∷◌, ◌&&◌, ◌==◌,
  if◌then◌else◌,
}
use scst_qla2xxx.Base.Lists.{length, get_elem?}
use scst_qla2xxx.Base.Words.{u8, u16, u32, set_byte1, set_byte3}
use scst_qla2xxx.Base.Mem.{update}
use scst_qla2xxx.Request.Queue.{store, ReqQue}
use scst_qla2xxx.Request.Calc.{calc_iocbs_32, calc_iocbs_64, calc_iocbs_24xx}
use scst_qla2xxx.Request.Handles.{find_handle}
use scst_qla2xxx.Request.Ring.{put_words}
use scst_qla2xxx.Request.Segments.{Sg}
use scst_qla2xxx.Request.Build.{build_scsi_iocbs_32, build_scsi_iocbs_64, build_scsi_iocbs_24xx}
use scst_qla2xxx.Request.Room.{make_room}
use scst_qla2xxx.Request.Packet.{command_words, command_type_7_words}
use scst_qla2xxx.Request.Alloc.{clear_entry, make_handle, start_req, marker}
use scst_qla2xxx.Adapter.{
  TagMsg, head_of_queue_tag, ordered_queue_tag, other_tag, ScsiCmnd, Stats, FcPort, Adapter,
  set_srb, set_req,
}
use scst_qla2xxx.Response.Packet.{RspQue}
use scst_qla2xxx.Response.Sense.{fcp_swap}
use scst_qla2xxx.Response.Status.{Others}
use scst_qla2xxx.Response.Process.{process_response_queue_2x00, process_response_queue_24xx}

-- The first `tot_dsds` elements: nothing is mapped for a command without a scatter list.
abbrev pub dsds : ScsiCmnd → List Sg
dsds cmd = if cmd.sg_count == 0 then [] else cmd.mapped

-- From "Check for room in outstanding command list." to "If still no head room then bail out". The
-- queue is returned with its count, which is computed anew on some failures too.
unfoldable pub reserve : (ℕ → ℕ) → ReqQue → ℕ → ScsiCmnd → ReqQue × Option ℕ
reserve calc req out cmd = elim (find_handle req) [
  | none ↦ (req, none)
  | some handle ↦
      if not (cmd.sg_count == 0) && (length cmd.mapped == 0)
      then (req, none)
      else let (looked, room) = make_room req (calc (length (dsds cmd)) + 2) out in
        (looked, if room then some handle else none)
]

-- Where the two functions differ: the count of entries, the words of the packet from the handle
-- on, given the handle and the number of segments, the builder of IOCBs, and the bytes that are
-- stored in the packet's first word at last.
pub record Flavour : Type 0 where
  pub calc : ℕ → ℕ
  pub words : ScsiCmnd → ReqQue → ℕ → ℕ → List ℕ
  pub build : Stats → ReqQue → ScsiCmnd → Stats × ReqQue
  pub header : ℕ → ℕ → ℕ

-- "Build command packet": the slot is taken, and the packet cleared from its third word on.
unfoldable pub take_entries : Flavour → ReqQue → ℕ → ℕ → ScsiCmnd → ReqQue
unfolding clear_entry
take_entries f req handle sp cmd =
    let e = req.ring_ptr in
    let n = length (dsds cmd) in
    record req {
      current_outstanding_cmd = handle;
      outstanding_cmds = update req.outstanding_cmds handle (some sp);
      cnt = req.cnt - f.calc n;
      ring = put_words (clear_entry req.ring e 2) e 1 (f.words cmd req handle n);
    }

-- From "Build command packet" to "Set chip new ring index."
unfoldable pub queue_command : Flavour → Stats → ReqQue → ℕ → ℕ → ScsiCmnd → Stats × ReqQue
unfolding start_req
queue_command f st req handle sp cmd =
    let e = req.ring_ptr in
    let (st', built) =
      f.build st (take_entries f req handle sp cmd) (record cmd { mapped = dsds cmd }) in
    let word = f.header (f.calc (length (dsds cmd))) (built.ring e 0) in
    (st', start_req false 0 (record built { ring = store built.ring e 0 word }))

-- The part under the lock, up to the response queue; `cmd` is GET_CMD_SP(sp).
unfoldable pub start_locked : Flavour → Adapter → ℕ → ℕ → ℕ → ScsiCmnd → Adapter × Bool
unfolding set_req set_srb
start_locked f ha que out sp cmd =
    let (looked, found) = reserve f.calc (ha.req_q_map que) out cmd in
    elim found [
      | none ↦ (set_req ha que looked, false)
      | some handle ↦
          let (st', req') = queue_command f ha.qla_stats looked handle sp cmd in
          let s' = record (ha.srbs sp) {
            handle = handle;
            dma_valid = true;
            cmd = some (record cmd { host_scribble = handle });
          } in
          (record (set_srb (set_req ha que req') sp s') { qla_stats = st' }, true)
    ]

-- "Send marker if required"; `marker_out` is the out index that the marker's room is computed from.
unfoldable pub send_marker : Adapter → ℕ → Adapter × Bool
send_marker ha marker_out =
    if ha.marker_needed
    then (let (ha', sent) = marker ha marker_out 0 0 2 in
        if sent then (record ha' { marker_needed = false }, true) else (ha', false))
    else (ha, true)

unfoldable pub start_scsi : Flavour → Adapter → ℕ → ℕ → ℕ → ℕ → ScsiCmnd → Adapter × Bool
start_scsi f ha que marker_out out sp cmd =
    let (marked, sent) = send_marker ha marker_out in
    let started = start_locked f marked que out sp cmd in if sent then started else (marked, false)

-- `enable_64bit_addressing` chose the operations calc_req_entries and build_iocbs.
unfoldable pub flavour_2x00 : (enable_64bit_addressing : Bool) → Adapter → FcPort → Flavour
flavour_2x00 enable_64bit_addressing ha port = record {
  calc = if enable_64bit_addressing then calc_iocbs_64 else calc_iocbs_32;
  words = command_words ha.chip.extended_ids port;
  build =
      if enable_64bit_addressing then build_scsi_iocbs_64 ha.chip.qlafx00 else build_scsi_iocbs_32;
  header = λ req_cnt word. set_byte1 word req_cnt;
}

unfoldable pub flavour_24xx : (ℕ → ℕ → ℕ) → Adapter → FcPort → (rsp_id : ℕ) → Flavour
flavour_24xx int_to_scsilun ha port rsp_id = record {
  calc = calc_iocbs_24xx;
  words = command_type_7_words int_to_scsilun port;
  build = build_scsi_iocbs_24xx ha.chip.qlafx00;
  header = λ req_cnt word. set_byte3 (set_byte1 word req_cnt) rsp_id;
}

-- "Manage unprocessed RIO/ZIO commands in response queue", after a success.
abbrev pub wants_responses : Adapter → RspQue → Bool → Bool
wants_responses ha rsp started =
    started && (ha.process_response_queue_flag && not (rsp.ring rsp.ring_ptr).processed)

unfoldable pub start_scsi_2x00 :
    Others
    → (enable_64bit_addressing : Bool) → Adapter
    → RspQue
    → (marker_out out sp : ℕ) → ScsiCmnd
    → (Adapter × RspQue) × Bool
start_scsi_2x00 others enable_64bit_addressing ha rsp marker_out out sp cmd =
    let port = ha.fcports (ha.srbs sp).fcport in
    let (ha', started) =
      start_scsi (flavour_2x00 enable_64bit_addressing ha port) ha 0 marker_out out sp cmd in
    (
      if wants_responses ha' rsp started
          then process_response_queue_2x00 others ha' rsp
          else (ha', rsp),
      started,
    )

-- `rsp` is the response queue that qla25xx_set_que chose.
unfoldable pub start_scsi_24xx :
    Others
    → (int_to_scsilun : ℕ → ℕ → ℕ) → Adapter
    → RspQue
    → (marker_out out sp : ℕ) → ScsiCmnd
    → (Adapter × RspQue) × Bool
start_scsi_24xx others int_to_scsilun ha rsp marker_out out sp cmd =
    let port = ha.fcports (ha.srbs sp).fcport in
    let (ha', started) =
      start_scsi (flavour_24xx int_to_scsilun ha port rsp.id) ha ha.vha_req marker_out out sp cmd in
    (
      if wants_responses ha' rsp started
          then process_response_queue_24xx others ha' rsp
          else (ha', rsp),
      started,
    )
