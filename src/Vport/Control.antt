-- ===== src/Vport/Control.antt =====
-- Commands for a virtual port: qla24xx_control_vp and qla24xx_modify_vp_config
-- (drivers/scsi/qla2xxx/qla_mbx.c), and qla2x00_mark_vp_devices_dead, qla24xx_disable_vp,
-- qla24xx_enable_vp, qla24xx_configure_vp and qla2x00_vp_abort_isp (qla_mid.c).
use scst_qla2xxx.Base.{
  ℕ, ◌-◌, ◌/◌, ◌%◌, ◌^◌, Bool, true, false, List, [], ◌∷◌, not, ◌||◌, leb, ◌==◌, if◌then◌else◌,
}
use scst_qla2xxx.Base.Words.{has, u8}
use scst_qla2xxx.Adapter.{Adapter, unconfigured}
use scst_qla2xxx.Adapter.Lost.{mark_device_lost, set_fcport_state, mark_all_devices_lost}
use scst_qla2xxx.Vport.{
  Hosts, Vha, LoopState, loop_down, loop_dead, active, failed, FcVportState, fc_active, fc_disabled,
  fc_linkdown, fc_initializing, fc_failed, portdwn, set_vha,
}

-- QLA_PARAMETER_ERROR, QLA_FUNCTION_FAILED, QLA_MEMORY_ALLOC_FAILED; QLA_SUCCESS is 0.
abbrev pub parameter_error : ℕ
parameter_error = 6

abbrev pub function_failed : ℕ
function_failed = 0x102

abbrev pub memory_alloc_failed : ℕ
memory_alloc_failed = 0x103

-- LOOP_DOWN_TIME, VCE_COMMAND_DISABLE_VPS_LOGO_ALL
abbrev pub loop_down_time : ℕ
loop_down_time = 255

abbrev pub disable_vps_logo_all : ℕ
disable_vps_logo_all = 0x0B

-- `struct vp_ctrl_entry_24xx`, as far as it is filled: the bytes of the map are read by their number.
pub record VpCtrl : Type 0 where
  pub command : ℕ
  pub vp_count : ℕ
  pub vp_idx_map : ℕ → ℕ

-- `struct vp_config_entry_24xx`
pub record VpConfig : Type 0 where
  pub vp_index1 : ℕ
  pub options_idx1 : ℕ
  pub node_name_idx1 : List ℕ
  pub port_name_idx1 : List ℕ

-- How qla2x00_issue_iocb ends, with the statuses that the chip wrote into the entry, or that there
-- was no memory for the entry.
pub data Issue : Type 0 where
  no_memory : Issue
  issued : (rval entry_status comp_status : ℕ) → Issue

-- The chip, and the functions of the driver that only send it a command: send_change_request of the
-- vp_idx, and configure_vhba.
pub record VpIo : Type 0 where
  pub control : VpCtrl → Issue
  pub modify : VpConfig → Issue
  pub send_change_request : ℕ → ℕ
  pub configure_vhba : ℕ

unfoldable pub vp_ctrl : ℕ → ℕ → VpCtrl
vp_ctrl cmd vp_index = record {
  command = cmd;
  vp_count = 1;
  vp_idx_map = λ map. if map == (vp_index - 1) / 8 then 2 ^ ((vp_index - 1) % 8) else 0;
}

unfoldable pub control_status : Issue → ℕ
control_status no_memory = memory_alloc_failed
control_status (issued rval entry_status comp_status) =
    if not (rval == 0)
    then rval
    else if not (entry_status == 0)
    then function_failed
    else if not (comp_status == 0)
    then function_failed
    else rval

unfoldable pub control_vp : VpIo → Hosts → ℕ → ℕ → ℕ
unfolding vp_ctrl control_status
control_vp io hw h cmd =
    let vp_index = (hw.hosts h).vp_idx in
    if (vp_index == 0) || leb hw.max_npiv_vports vp_index
    then parameter_error
    else control_status (io.control (vp_ctrl cmd vp_index))

unfoldable pub set_fc_vport : Hosts → ℕ → FcVportState → Hosts
unfolding set_vha
set_fc_vport hw h state = set_vha hw h (record (hw.hosts h) { fc_vport = state })

-- Both tests after that of `rval` are of the completion status.
unfoldable pub modified : Hosts → ℕ → Issue → Hosts × ℕ
unfolding set_fc_vport
modified hw h no_memory = (hw, memory_alloc_failed)
modified hw h (issued rval entry_status comp_status) =
    if not (rval == 0)
    then (hw, rval)
    else if not (comp_status == 0)
    then (hw, function_failed)
    else (set_fc_vport hw h fc_initializing, rval)

unfoldable pub vp_config : Vha → VpConfig
vp_config vha = record {
  vp_index1 = u8 vha.vp_idx;
  options_idx1 = 0x38;
  node_name_idx1 = vha.node_name;
  port_name_idx1 = vha.port_name;
}

unfoldable pub modify_vp_config : VpIo → Hosts → ℕ → Hosts × ℕ
unfolding modified vp_config
modify_vp_config io hw h = modified hw h (io.modify (vp_config (hw.hosts h)))

unfoldable pub mark_vp_devices_dead : ℕ → Adapter → List ℕ → Adapter
mark_vp_devices_dead vp_idx ha [] = ha
mark_vp_devices_dead vp_idx ha (i ∷ ports) =
    let lost = mark_device_lost vp_idx ha i false false in
    mark_vp_devices_dead vp_idx (set_fcport_state lost i unconfigured) ports

-- The result is whether it is 0 (else it is -1).
unfoldable pub disable_vp : VpIo → Hosts → ℕ → Hosts × Bool
unfolding control_vp set_vha mark_vp_devices_dead
disable_vp io hw h =
    let vha = hw.hosts h in
    let ok = control_vp io hw h disable_vps_logo_all == 0 in
    (
      record (set_vha hw h (record vha {
        loop_state = loop_down;
        loop_down_timer = loop_down_time;
        vp_state = failed;
        management_server_logged_in = false;
        fc_vport = if ok then fc_disabled else fc_failed;
      })) { adapter = mark_vp_devices_dead vha.vp_idx hw.adapter vha.vp_fcports },
      ok,
    )

abbrev pub is_down : LoopState → Bool
is_down loop_down = true
is_down _ = false

abbrev pub is_loop_dead : LoopState → Bool
is_loop_dead loop_dead = true
is_loop_dead _ = false

-- The physical port is up, on a switch. ISP_CFG_F is 8.
unfoldable pub fabric_is_up : Hosts → Bool
fabric_is_up hw =
    let state = (hw.hosts hw.base).loop_state in
    not (is_down state || is_loop_dead state || not (has hw.current_topology 8))

-- The result is whether it is 0 (else it is 1).
unfoldable pub enable_vp : VpIo → Hosts → ℕ → Hosts × Bool
unfolding fabric_is_up set_vha set_fc_vport modify_vp_config
enable_vp io hw h =
    if not (fabric_is_up hw)
    then (
      set_vha hw h (record (hw.hosts h) { vp_err_state = portdwn; fc_vport = fc_linkdown }),
      false,
    )
    else let (hw', ret) = modify_vp_config io hw h in
      if ret == 0 then (hw', true) else (set_fc_vport hw' h fc_failed, false)

unfoldable pub configure_vp : VpIo → Hosts → ℕ → Hosts
unfolding set_vha
configure_vp io hw h =
    let vha = hw.hosts h in
    if not (io.send_change_request vha.vp_idx == 0)
    then hw
    else let registered = record vha { vp_scr_needed = false; online = true } in
      set_vha hw h (
        if io.configure_vhba == 0
        then record registered { vp_state = active; fc_vport = fc_active }
        else registered)

-- A loop down, for an abort.
unfoldable pub abort_loop : Hosts → ℕ → Hosts
unfolding set_vha
abort_loop hw h =
    let vha = hw.hosts h in
    if not (is_down vha.loop_state)
    then record (set_vha hw h (record vha { loop_state = loop_down })) {
      adapter = mark_all_devices_lost vha.vp_idx hw.adapter vha.vp_fcports false;
    }
    else if vha.loop_down_timer == 0
    then set_vha hw h (record vha { loop_down_timer = loop_down_time })
    else hw

-- The physical port does most of the work; an abort of the chip that is under way has logged the
-- virtual port out already; else the code calls qla24xx_control_vp here, and drops the result.
unfoldable pub vp_abort_isp : VpIo → Hosts → ℕ → Hosts × Bool
unfolding abort_loop
vp_abort_isp io hw h = enable_vp io (abort_loop hw h) h
