-- ===== src/Adapter.antt =====
-- The state that the request and the response side share: what the driver keeps in `srb_t`,
-- `fc_port_t`, `scsi_qla_host_t` and `struct qla_hw_data` (drivers/scsi/qla2xxx/qla_def.h), and the
-- part of the mid layer's `struct scsi_cmnd` that it reads and writes.
pub mod Lost
use scst_qla2xxx.Base.{ℕ, Bool, true, Option, List, ◌∷◌}
use scst_qla2xxx.Base.Mem.{update}
use scst_qla2xxx.Request.Queue.{ReqQue}
use scst_qla2xxx.Request.Segments.{Sg}

-- The tests of the chip's type: IS_FWI2_CAPABLE, IS_QLAFX00, IS_P3P_TYPE, HAS_EXTENDED_IDS,
-- IS_PI_SPLIT_DET_CAPABLE.
pub record Chip : Type 0 where
  pub fwi2_capable : Bool
  pub qlafx00 : Bool
  pub p3p_type : Bool
  pub extended_ids : Bool
  pub pi_split_det_capable : Bool

pub data Direction : Type 0 where
  dma_to_device dma_from_device dma_bidirectional dma_none : Direction

-- The tag message that scsi_populate_tag_msg gives for a tagged command.
pub data TagMsg : Type 0 where
  head_of_queue_tag ordered_queue_tag other_tag : TagMsg

-- `struct scsi_cmnd`. The scatter list is kept as dma_map_sg returns it (empty when that fails);
-- `sg_count` is what the mid layer asked to map. The sense buffer is read by offsets.
pub record ScsiCmnd : Type 0 where
  pub sg_count : ℕ
  pub mapped : List Sg
  pub bufflen : ℕ
  pub direction : Direction
  pub lun : ℕ
  pub cmnd : List ℕ
  pub tag : Option TagMsg
  pub underflow : ℕ
  pub resid : ℕ
  pub result : ℕ
  pub host_scribble : ℕ
  pub sense_buffer : ℕ → ℕ

-- `type` of an SRB, for the types that the modelled code tells apart.
pub data SrbType : Type 0 where
  scsi_cmd tm_cmd bidi_cmd other_cmd : SrbType

-- `request_sense_ptr` is the offset of the pointer in the command's sense buffer. `tmf_data` is
-- `u.iocb_cmd.u.tmf.data`, `abt_comp_status` is `u.iocb_cmd.u.abt.comp_status`, and `cmd` is GET_CMD_SP.
pub record Srb : Type 0 where
  pub fcport : ℕ
  pub type_of : SrbType
  pub handle : ℕ
  pub iocbs : ℕ
  pub dma_valid : Bool
  pub cmd : Option ScsiCmnd
  pub request_sense_length : ℕ
  pub request_sense_ptr : ℕ
  pub tmf_data : ℕ
  pub abt_comp_status : ℕ

-- FCS_UNCONFIGURED and so on; `unset` is the 0 of a port that was just allocated.
pub data PortState : Type 0 where
  unset unconfigured device_dead device_lost online : PortState

pub record FcPort : Type 0 where
  pub loop_id : ℕ
  pub domain : ℕ
  pub area : ℕ
  pub al_pa : ℕ
  pub vp_idx : ℕ
  pub state : PortState
  pub rport : Bool
  pub drport : Bool
  pub login_retry : ℕ
  pub retry_delay_timestamp : ℕ

-- The bits of `dpc_flags` that the modelled code sets or tests.
pub record DpcFlags : Type 0 where
  pub isp_abort_needed : Bool
  pub fcoe_ctx_reset_needed : Bool
  pub abort_isp_active : Bool
  pub fcport_update_needed : Bool
  pub relogin_needed : Bool

pub record Stats : Type 0 where
  pub output_bytes : ℕ
  pub output_requests : ℕ
  pub input_bytes : ℕ
  pub input_requests : ℕ

-- Pointers to SRBs, ports and request queues are indices into the tables `srbs`, `fcports` and
-- `req_q_map`; `req_q_present` says which entries of the map are not NULL, and `req_qid_map` is the
-- bitmap of queue ids. `completions` lists the calls `sp->done(.., sp, res)`, the newest first;
-- `rport_deletes` counts the calls of fc_remote_port_delete.
pub record Adapter : Type 0 where
  pub chip : Chip
  pub req_q_map : ℕ → ReqQue
  pub req_q_present : ℕ → Bool
  pub req_qid_map : ℕ → Bool
  pub max_req_queues : ℕ
  pub vha_req : ℕ
  pub portnum : ℕ
  pub vp_idx : ℕ
  pub srbs : ℕ → Srb
  pub fcports : ℕ → FcPort
  pub login_retry_count : ℕ
  pub online : Bool
  pub process_response_queue_flag : Bool
  pub marker_needed : Bool
  pub dpc_flags : DpcFlags
  pub dpc_woken : Bool
  pub qla_stats : Stats
  pub jiffies : ℕ
  pub completions : List (ℕ × ℕ)
  pub rport_deletes : ℕ

-- `sp->done(ha, sp, res)`, a call through a pointer into the layer that made the SRB.
unfoldable pub done : Adapter → ℕ → ℕ → Adapter
done ha sp res = record ha { completions = (sp, res) ∷ ha.completions }

unfoldable pub set_srb : Adapter → ℕ → Srb → Adapter
set_srb ha sp s = record ha { srbs = update ha.srbs sp s }

unfoldable pub set_req : Adapter → ℕ → ReqQue → Adapter
set_req ha que req = record ha { req_q_map = update ha.req_q_map que req }

unfoldable pub set_fcport : Adapter → ℕ → FcPort → Adapter
set_fcport ha i port = record ha { fcports = update ha.fcports i port }

unfoldable pub free_slot : Adapter → ℕ → ℕ → Adapter
unfolding set_req
free_slot ha que handle =
    let req = ha.req_q_map que in
    set_req ha que
      (record req { outstanding_cmds = update req.outstanding_cmds handle Option.none })
