-- ===== src/Vport.antt =====
-- Virtual ports: what `scsi_qla_host_t` and `struct qla_hw_data` (drivers/scsi/qla2xxx/qla_def.h)
-- keep of them, and what the ports take from outside.
pub mod Ids
pub mod Control
pub mod Create
pub mod Port
pub mod Book
pub mod Frame
pub mod Grow
pub mod Reach
pub mod Owners
pub mod Dead
pub mod Queues
use scst_qla2xxx.Base.{ℕ, Bool, List}
use scst_qla2xxx.Base.Mem.{update}
use scst_qla2xxx.Adapter.{Adapter}

-- LOOP_TIMEOUT, LOOP_DOWN and so on; `loop_unset` is the 0 of a new host.
pub data LoopState : Type 0 where
  loop_unset loop_timeout loop_down loop_up loop_update loop_ready loop_dead : LoopState

-- VP_OFFLINE, VP_ACTIVE, VP_FAILED
pub data VpState : Type 0 where
  offline active failed : VpState

-- The states that fc_vport_set_state of the kernel is called with; `unknown` before the first call.
pub data FcVportState : Type 0 where
  unknown fc_active fc_disabled fc_linkdown fc_initializing fc_failed : FcVportState

-- VP_ERR_UNKWN, VP_ERR_PORTDWN
pub data VpErr : Type 0 where
  unkwn portdwn : VpErr

-- The fields of `struct Scsi_Host` that qla24xx_create_vhost sets.
pub record ScsiHost : Type 0 where
  pub can_queue : ℕ
  pub cmd_per_lun : ℕ
  pub max_cmd_len : ℕ
  pub max_channel : ℕ
  pub max_lun : ℕ
  pub max_id : ℕ

-- A host, physical or virtual. `vp_fcports` lists the ports, as indices into the adapter's table.
-- `req` is the number of the request queue. `fc_vport` is the state of the transport's port.
pub record Vha : Type 0 where
  pub vp_idx : ℕ  -- uint16_t
  pub port_name : List ℕ
  pub node_name : List ℕ
  pub vp_fcports : List ℕ
  pub loop_state : LoopState
  pub loop_down_timer : ℕ
  pub vp_state : VpState
  pub vp_err_state : VpErr
  pub vp_prev_err_state : VpErr
  pub vp_scr_needed : Bool
  pub abort_isp_active : Bool
  pub online : Bool
  pub init_done : Bool
  pub delete_progress : Bool
  pub management_server_logged_in : Bool
  pub timer_active : Bool
  pub mgmt_svr_loop_id : ℕ  -- uint16_t
  pub req : ℕ
  pub host : ScsiHost
  pub fc_vport : FcVportState

-- `vp_list` holds pointers to hosts, which are indices into `hosts`; `base` is the physical port.
pub record Hosts : Type 0 where
  pub adapter : Adapter
  pub hosts : ℕ → Vha
  pub base : ℕ
  pub vp_idx_map : ℕ → Bool
  pub vp_list : List ℕ
  pub num_vhosts : ℕ  -- uint16_t
  pub max_npiv_vports : ℕ  -- uint16_t
  pub cur_vport_count : ℕ
  pub npiv_supported : Bool
  pub switch_cap : ℕ
  pub current_topology : ℕ
  pub t10_pi_capable : Bool
  pub max_fibre_devices : ℕ

unfoldable pub set_vha : Hosts → ℕ → Vha → Hosts
set_vha hw h vha = record hw { hosts = update hw.hosts h vha }
