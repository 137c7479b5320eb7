-- ===== src/Response/Sense.antt =====
-- Sense data, which may need more entries than one: qla2x00_handle_sense and
-- qla2x00_status_cont_entry of drivers/scsi/qla2xxx/qla_isr.c.
pub mod Bounds
use scst_qla2xxx.Base.{ℕ, ◌+◌, ◌-◌, ◌*◌, ◌/◌, ◌%◌, none, some, ◌&&◌, ltb, leb, ◌==◌, if◌then◌else◌}
use scst_qla2xxx.Adapter.{Adapter, Srb, ScsiCmnd, done, set_srb}
use scst_qla2xxx.Response.Packet.{Pkt, RspQue}

-- The kernel's SCSI_SENSE_BUFFERSIZE.
abbrev pub sense_buffersize : ℕ
sense_buffersize = 96

-- memcpy of `n` bytes to the offset `at`.
unfoldable pub copy_bytes : (ℕ → ℕ) → ℕ → (ℕ → ℕ) → ℕ → ℕ → ℕ
copy_bytes dst at src n j = if leb at j && ltb j (at + n) then src (j - at) else dst j

-- host_to_fcp_swap, a swab32 of each word.
abbrev pub fcp_swap : (ℕ → ℕ) → ℕ → ℕ
fcp_swap data_of j = data_of (j / 4 * 4 + 3 - j % 4)

-- `cp` is GET_CMD_SP(sp). The command and the SRB are written, and the response queue remembers
-- the SRB if sense data is still to come.
unfoldable pub handle_sense :
    ScsiCmnd
    → Srb
    → (sp : ℕ) → (sense_data : ℕ → ℕ) → (par_sense_len sense_len : ℕ) → RspQue
    → ℕ
    → Srb × RspQue
unfolding copy_bytes
handle_sense cp s sp sense_data par_sense_len sense_len rsp res =
    let sense_len' = if leb sense_buffersize sense_len then sense_buffersize else sense_len in
    let copied = if ltb par_sense_len sense_len' then par_sense_len else sense_len' in
    let track_sense_len = sense_len' - copied in
    let filled = record cp { sense_buffer = copy_bytes cp.sense_buffer 0 sense_data copied } in
    let s' = record s { request_sense_length = track_sense_len; request_sense_ptr = copied } in
    if track_sense_len == 0 then (record s' { cmd = some filled }, rsp) else (
      record s' { cmd = some (record filled { result = res }) },
      record rsp { status_srb = some sp },
    )

-- The data of a continuation entry: 60 bytes.
abbrev pub cont_size : ℕ
cont_size = 60

-- `s` is the SRB with its command.
continue_sense : Adapter → RspQue → ℕ → Srb → ScsiCmnd → Pkt → Adapter × RspQue
unfolding copy_bytes set_srb done
continue_sense ha rsp sp s cp pkt =
    let sense_sz =
      if ltb cont_size s.request_sense_length then cont_size else s.request_sense_length in
    let bytes = if ha.chip.fwi2_capable then fcp_swap pkt.cont_data else pkt.cont_data in
    let cp' = record cp {
      sense_buffer = copy_bytes cp.sense_buffer s.request_sense_ptr bytes sense_sz;
    } in
    let left = s.request_sense_length - sense_sz in
    let ha' = set_srb ha sp (record s {
      cmd = some cp';
      request_sense_length = left;
      request_sense_ptr = s.request_sense_ptr + sense_sz;
    }) in
    if left == 0 then (done ha' sp cp.result, record rsp { status_srb = none }) else (ha', rsp)

unfoldable pub status_cont_entry : Adapter → RspQue → Pkt → Adapter × RspQue
unfolding continue_sense
status_cont_entry ha rsp pkt = elim rsp.status_srb [
  | none ↦ (ha, rsp)
  | some sp ↦ if (ha.srbs sp).request_sense_length == 0 then (ha, rsp) else elim (ha.srbs sp).cmd [
    | none ↦ (ha, record rsp { status_srb = none })
    | some cp ↦ continue_sense ha rsp sp (ha.srbs sp) cp pkt
  ]
]
