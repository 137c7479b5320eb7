-- ===== src/Response/Packet.antt =====
-- Entries of a response ring, and `struct rsp_que` (drivers/scsi/qla2xxx/qla_def.h, qla_fw.h).
use scst_qla2xxx.Base.{ℕ, Bool, Option, ◌+◌, ◌==◌, if◌then◌else◌}
use scst_qla2xxx.Base.Words.{u16}

-- An entry as the fields that the handlers read: those of `sts_entry_t`, then those of
-- `struct sts_entry_24xx` that have no like there, of `sts21_entry_t` and `sts22_entry_t`, and of
-- `sts_cont_entry_t`. Byte arrays are memory from their first byte on, and may be read past their
-- end. `processed` is `signature == RESPONSE_PROCESSED`.
pub record Pkt : Type 0 where
  pub processed : Bool
  pub entry_type : ℕ
  pub entry_status : ℕ
  pub handle : ℕ
  pub comp_status : ℕ
  pub scsi_status : ℕ
  pub state_flags : ℕ
  pub status_flags : ℕ
  pub rsp_info_len : ℕ
  pub req_sense_length : ℕ
  pub residual_length : ℕ
  pub rsp_info : ℕ → ℕ
  pub req_sense_data : ℕ → ℕ
  pub residual_len : ℕ
  pub retry_delay : ℕ
  pub rsp_residual_count : ℕ
  pub sense_len : ℕ
  pub rsp_data_len : ℕ
  pub data_24xx : ℕ → ℕ
  pub handle_count : ℕ
  pub handles : ℕ → ℕ
  pub cont_data : ℕ → ℕ

-- `req` is the number of the request queue that completes here; `status_srb` points to the SRB that
-- waits for more sense data; `rsp_q_out` is the register.
pub record RspQue : Type 0 where
  pub ring : ℕ → Pkt
  pub ring_ptr : ℕ
  pub ring_index : ℕ  -- uint16_t
  pub length : ℕ  -- uint16_t
  pub id : ℕ
  pub req : ℕ
  pub rsp_q_out : ℕ
  pub status_srb : Option ℕ

-- The lines under the test of the loop.
unfoldable pub next_entry : RspQue → RspQue
next_entry rsp =
    let index = u16 (rsp.ring_index + 1) in
    if index == rsp.length
    then record rsp { ring_index = 0; ring_ptr = 0 }
    else record rsp { ring_index = index; ring_ptr = rsp.ring_ptr + 1 }
