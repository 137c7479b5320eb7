-- ===== src/Request/Build.antt =====
-- The IOCBs of a SCSI command: qla2x00_get_cmd_direction, qla2x00_build_scsi_iocbs_32,
-- qla2x00_build_scsi_iocbs_64 and qla24xx_build_scsi_iocbs of drivers/scsi/qla2xxx/qla_iocb.c. The
-- command's packet is the entry at `ring_ptr`; word numbers are the offsets of `cmd_entry_t`,
-- `cmd_a64_entry_t` (qla_def.h) and `struct cmd_type_7` (qla_fw.h) divided by four.
pub mod Segs
use scst_qla2xxx.Base.{ℕ, ◌+◌, ◌%◌, bit_or, Bool, true, false, ◌||◌, ◌==◌, if◌then◌else◌}
use scst_qla2xxx.Base.Words.{set_lo16}
use scst_qla2xxx.Request.Queue.{Ring, store, ReqQue}
use scst_qla2xxx.Request.Segments.{Cont, type0, type1, Cursor, load_segments}
use scst_qla2xxx.Adapter.{Direction, dma_to_device, dma_from_device, dma_none, ScsiCmnd, Stats}

abbrev pub is_to_device : Direction → Bool
is_to_device dma_to_device = true
is_to_device _ = false

abbrev pub is_from_device : Direction → Bool
is_from_device dma_from_device = true
is_from_device _ = false

abbrev pub is_none : Direction → Bool
is_none dma_none = true
is_none _ = false

-- The statistics that the functions below update.
count_direction : Stats → ScsiCmnd → Stats
count_direction st cmd =
    if is_to_device cmd.direction
    then record st {
      output_bytes = st.output_bytes + cmd.bufflen;
      output_requests = st.output_requests + 1;
    }
    else if is_from_device cmd.direction
    then record st {
      input_bytes = st.input_bytes + cmd.bufflen;
      input_requests = st.input_requests + 1;
    }
    else st

-- CF_WRITE and CF_READ.
unfoldable pub get_cmd_direction : Stats → ScsiCmnd → Stats × ℕ
unfolding count_direction
get_cmd_direction st cmd = (
  count_direction st cmd,
  if is_to_device cmd.direction then 0x40 else if is_from_device cmd.direction then 0x20 else 0,
)

-- `!scsi_bufflen(cmd) || cmd->sc_data_direction == DMA_NONE`
abbrev pub no_data : ScsiCmnd → Bool
no_data cmd = cmd.bufflen == 0 || is_none cmd.direction

-- `cmd_pkt->word = v`
abbrev pub set_word : ReqQue → ℕ → ℕ → ReqQue
set_word req w v = record req { ring = store req.ring req.ring_ptr w v }

abbrev pub pkt_word : ReqQue → ℕ → ℕ
pkt_word req w = req.ring req.ring_ptr w

-- The body that the two functions for chips before ISP24xx share: the entry's type, the kind of
-- the continuations, and the descriptors that fit in the command's own entry, from word 10 on.
build_scsi_iocbs : ℕ → Cont → ℕ → Stats → ReqQue → ScsiCmnd → Stats × ReqQue
build_scsi_iocbs entry_type c avail st req cmd =
    let typed = set_word req 0 entry_type in
    if no_data cmd
    then (st, set_word typed 9 0)
    else let (st', cflags) = get_cmd_direction st cmd in
      let flagged =
        set_word typed 3 (set_lo16 (pkt_word typed 3) (bit_or (pkt_word typed 3 % 65536) cflags)) in
      (st', load_segments c (record { req = flagged; word = 10; avail_dsds = avail }) cmd.mapped)

-- COMMAND_TYPE.
unfoldable pub build_scsi_iocbs_32 : Stats → ReqQue → ScsiCmnd → Stats × ReqQue
unfolding build_scsi_iocbs get_cmd_direction
build_scsi_iocbs_32 = build_scsi_iocbs 0x11 type0 3

-- COMMAND_A64_TYPE.
unfoldable pub build_scsi_iocbs_64 : Bool → Stats → ReqQue → ScsiCmnd → Stats × ReqQue
unfolding build_scsi_iocbs get_cmd_direction
build_scsi_iocbs_64 is_qlafx00 = build_scsi_iocbs 0x19 (type1 is_qlafx00) 2

-- TMF_WRITE_DATA and TMF_READ_DATA; any other direction leaves the flags.
set_direction : ReqQue → Direction → ReqQue
set_direction req direction =
    if is_to_device direction
    then set_word req 6 (set_lo16 (pkt_word req 6) 1)
    else if is_from_device direction
    then set_word req 6 (set_lo16 (pkt_word req 6) 2)
    else req

-- COMMAND_TYPE_7.
unfoldable pub build_scsi_iocbs_24xx : Bool → Stats → ReqQue → ScsiCmnd → Stats × ReqQue
unfolding count_direction set_direction
build_scsi_iocbs_24xx is_qlafx00 st req cmd =
    let typed = set_word req 0 0x18 in
    if no_data cmd then (st, set_word typed 11 0) else (
      count_direction st cmd,
      load_segments (type1 is_qlafx00)
          (record { req = set_direction typed cmd.direction; word = 13; avail_dsds = 1 })
          cmd.mapped,
    )
