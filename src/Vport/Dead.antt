-- ===== src/Vport/Dead.antt =====
-- What becomes of a virtual port that is disabled, and of its devices (Vport/Control).
use scst_qla2xxx.Base.{
  ℕ, ◌<◌, ◌≡◌, ◌≢◌, ◌↔◌, refl, true, false, List, [], ◌∷◌, arith, ◌==◌, if◌then◌else◌,
}
use scst_qla2xxx.Adapter.{Adapter, PortState, unconfigured, set_fcport}
use scst_qla2xxx.Adapter.Lost.{mark_device_lost, set_fcport_state}
use scst_qla2xxx.Adapter.Lost.All.{mark_device_lost-others}
use scst_qla2xxx.Vport.{Hosts}
use scst_qla2xxx.Vport.Control.{
  VpIo, Issue, no_memory, issued, vp_ctrl, control_status, control_vp, disable_vp,
  disable_vps_logo_all, mark_vp_devices_dead,
}
use scst_qla2xxx.Vport.Book.{listed, ids}

control_status-0 : (i : Issue) → ((control_status i == 0) ≡ true) ↔ (i ≡ issued 0 0 0)
unfolding control_status
control_status-0 no_memory = (λ e. absurd (ground arith), λ e. absurd (ground arith))
control_status-0 (issued rval entry_status comp_status) = ground arith

-- qla24xx_disable_vp succeeds exactly if the port's id is above 0 and below the maximum, and the
-- chip takes the command for that id without an error.
pub disable_vp_lem :
    (io : VpIo) (hw : Hosts) (h : ℕ)
    → ((disable_vp io hw h).1 ≡ true) ↔ (
        (0 < ids hw h)
        × (ids hw h < hw.max_npiv_vports)
        × (io.control (vp_ctrl disable_vps_logo_all (ids hw h)) ≡ issued 0 0 0))
unfolding disable_vp control_vp
disable_vp_lem io hw h =
    ground (arith, control_status-0 (io.control (vp_ctrl disable_vps_logo_all (ids hw h))))

set_fcport_state-at :
    (ha : Adapter) (i j : ℕ) (s : PortState)
    → ((set_fcport_state ha i s).fcports j).state ≡ (if i == j then s else (ha.fcports j).state)
unfolding set_fcport_state set_fcport
set_fcport_state-at ha i j s = ground arith

-- After qla2x00_mark_vp_devices_dead exactly the ports of the list are unconfigured, and the
-- others have the states that they had.
mark_vp_devices_dead_lem :
    (vp_idx : ℕ) (ha : Adapter) (ports : List ℕ) (j : ℕ)
    → ((mark_vp_devices_dead vp_idx ha ports).fcports j).state
      ≡ (if listed j ports == 0 then (ha.fcports j).state else unconfigured)
unfolding mark_vp_devices_dead listed
mark_vp_devices_dead_lem vp_idx ha [] j = refl
mark_vp_devices_dead_lem vp_idx ha (i ∷ ports) j =
    let lost = mark_device_lost vp_idx ha i false false in
    let rest = mark_vp_devices_dead_lem vp_idx (set_fcport_state lost i unconfigured) ports j in
    let one = set_fcport_state-at lost i j unconfigured in
    let other : i ≢ j → lost.fcports j ≡ ha.fcports j =
      λ ne. mark_device_lost-others vp_idx ha i j ne false false in
    ground arith
