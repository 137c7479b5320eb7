-- ===== src/Request/Queue.antt =====
-- `struct req_que` (drivers/scsi/qla2xxx/qla_def.h).
use scst_qla2xxx.Base.{ℕ, ◌+◌, Option, ◌==◌, if◌then◌else◌}
use scst_qla2xxx.Base.Words.{u16}
use scst_qla2xxx.Base.Mem.{update}

-- A ring of 64-byte entries, read as 32-bit words: entry, then word.
abbrev pub Ring : Type 0
Ring = ℕ → ℕ → ℕ

-- A store of one word of one entry.
unfoldable pub store : Ring → ℕ → ℕ → ℕ → Ring
store m e w v = update m e (update (m e) w v)

-- `ring_ptr` is the entry that the pointer is at. `outstanding_cmds` holds pointers to SRBs, which
-- are addresses in the host's table of SRBs. `req_q_in` is the register that the chip reads.
pub record ReqQue : Type 0 where
  pub ring : Ring
  pub ring_ptr : ℕ
  pub req_q_in : ℕ
  pub ring_index : ℕ  -- uint16_t
  pub cnt : ℕ  -- uint16_t
  pub length : ℕ  -- uint16_t
  pub id : ℕ  -- uint16_t
  pub outstanding_cmds : ℕ → Option ℕ
  pub current_outstanding_cmd : ℕ  -- uint32_t
  pub num_outstanding_cmds : ℕ  -- uint16_t

-- The lines under "Adjust ring index".
unfoldable pub adjust_ring_index : ReqQue → ReqQue
adjust_ring_index req =
    let index = u16 (req.ring_index + 1) in
    if index == req.length
    then record req { ring_index = 0; ring_ptr = 0 }
    else record req { ring_index = index; ring_ptr = req.ring_ptr + 1 }
