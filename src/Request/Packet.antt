-- ===== src/Request/Packet.antt =====
-- The words of a command's packet that qla2x00_start_scsi and qla24xx_start_scsi
-- (drivers/scsi/qla2xxx/qla_iocb.c) store before they build its segments.
use scst_qla2xxx.Base.{ℕ, ◌+◌, ◌*◌, Bool, Option, none, some, List, [], ◌∷◌, if◌then◌else◌}
use scst_qla2xxx.Base.Lists.{get_elem?}
use scst_qla2xxx.Base.Words.{u8, u16, u32}
use scst_qla2xxx.Request.Queue.{ReqQue}
use scst_qla2xxx.Request.Alloc.{make_handle}
use scst_qla2xxx.Adapter.{TagMsg, head_of_queue_tag, ordered_queue_tag, other_tag, ScsiCmnd, FcPort}
use scst_qla2xxx.Response.Sense.{fcp_swap}

-- The bytes of a command: memcpy stores cmd_len of them, 16 at most, and the rest was cleared.
abbrev pub cdb_byte : List ℕ → ℕ → ℕ
cdb_byte cmnd j = elim (get_elem? cmnd j) [ none ↦ 0 | some b ↦ u8 b ]

abbrev pub le_word : (ℕ → ℕ) → ℕ → ℕ
le_word b j = b j + b (j + 1) * 256 + b (j + 2) * 65536 + b (j + 3) * 16777216

-- CF_HEAD_TAG, CF_ORDERED_TAG and CF_SIMPLE_TAG.
abbrev pub control_flags : Option TagMsg → ℕ
control_flags none = 0x8
control_flags (some head_of_queue_tag) = 0x2
control_flags (some ordered_queue_tag) = 0x4
control_flags (some other_tag) = 0x8

-- TSK_HEAD_OF_QUEUE, TSK_ORDERED and TSK_SIMPLE.
abbrev pub task : Option TagMsg → ℕ
task none = 0
task (some head_of_queue_tag) = 1
task (some ordered_queue_tag) = 2
task (some other_tag) = 0

-- The words of `cmd_entry_t` from the handle to the byte count. SET_TARGET_ID stores the low half of
-- the target's word, or its second byte.
unfoldable pub command_words : Bool → FcPort → ScsiCmnd → ReqQue → ℕ → ℕ → List ℕ
command_words extended_ids port cmd req handle n =
    let cdb = le_word (cdb_byte cmd.cmnd) in
    u32 handle
    ∷ ((if extended_ids then u16 port.loop_id else u8 port.loop_id * 256) + u16 cmd.lun * 65536)
    ∷ control_flags cmd.tag
    ∷ u16 n * 65536
    ∷ cdb 0
    ∷ cdb 4
    ∷ cdb 8
    ∷ cdb 12
    ∷ u32 cmd.bufflen
    ∷ []

-- The words of `struct cmd_type_7` from the handle to the port's id. `int_to_scsilun` is the
-- kernel's, by bytes.
unfoldable pub command_type_7_words :
    (int_to_scsilun : ℕ → ℕ → ℕ) → FcPort → ScsiCmnd → ReqQue → ℕ → ℕ → List ℕ
command_type_7_words int_to_scsilun port cmd req handle n =
    let lun = le_word (fcp_swap (int_to_scsilun cmd.lun)) in
    let cdb = le_word (fcp_swap (cdb_byte cmd.cmnd)) in
    make_handle req.id handle
    ∷ u16 port.loop_id
    ∷ u16 n
    ∷ lun 0
    ∷ lun 4
    ∷ task cmd.tag * 65536
    ∷ cdb 0
    ∷ cdb 4
    ∷ cdb 8
    ∷ cdb 12
    ∷ u32 cmd.bufflen
    ∷ (u8 port.al_pa + u8 port.area * 256 + u8 port.domain * 65536 + u8 port.vp_idx * 16777216)
    ∷ []
