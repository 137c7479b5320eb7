-- ===== src/Adapter/Lost.antt =====
-- What the driver does when it loses a port or the chip: qla2x00_mark_device_lost,
-- qla2x00_mark_all_devices_lost and qla2x00_schedule_rport_del of drivers/scsi/qla2xxx/qla_os.c, qla2x00_set_fcport_state and
-- qla2x00_set_retry_delay_timestamp of qla_inline.h, and the request to reset the chip that the
-- response handlers share.
pub mod Quiet
pub mod Port
pub mod All
use scst_qla2xxx.Base.{
  ℕ, ◌+◌, ◌*◌, ◌/◌, ◌≡◌, Bool, true, false, ◌&&◌, ◌||◌, not, List, [], ◌∷◌, ◌==◌, if◌then◌else◌,
}
use scst_qla2xxx.Adapter.{Adapter, PortState, online, device_lost, device_dead, set_fcport}

-- IS_P3P_TYPE asks for a context reset, any other chip for an abort.
unfoldable pub need_reset : Adapter → Adapter
need_reset ha =
    let flags = ha.dpc_flags in
    if ha.chip.p3p_type
    then record ha { dpc_flags = record flags { fcoe_ctx_reset_needed = true } }
    else record ha { dpc_flags = record flags { isp_abort_needed = true } }

-- qla2xxx_wake_dpc
unfoldable pub wake_dpc : Adapter → Adapter
wake_dpc ha = record ha { dpc_woken = true }

unfoldable pub set_fcport_state : Adapter → ℕ → PortState → Adapter
unfolding set_fcport
set_fcport_state ha i state = set_fcport ha i (record (ha.fcports i) { state = state })

unfoldable pub schedule_rport_del : Adapter → ℕ → Bool → Adapter
unfolding set_fcport wake_dpc
schedule_rport_del ha i defer =
    let flags = ha.dpc_flags in
    if not (ha.fcports i).rport
    then ha
    else if defer
    then wake_dpc (record (set_fcport ha i (record (ha.fcports i) { drport = true })) {
      dpc_flags = record flags { fcport_update_needed = true };
    })
    else record ha { rport_deletes = ha.rport_deletes + 1 }

abbrev pub is_online : PortState → Bool
is_online online = true
is_online _ = false

abbrev pub is_dead : PortState → Bool
is_dead device_dead = true
is_dead _ = false

-- The first test of qla2x00_mark_device_lost, on chips other than QLAFX00.
lose_if_online : ℕ → Adapter → ℕ → Bool → Adapter
unfolding set_fcport_state schedule_rport_del
lose_if_online vp_idx ha i defer =
    if is_online (ha.fcports i).state && (vp_idx == (ha.fcports i).vp_idx)
    then schedule_rport_del (set_fcport_state ha i device_lost) i defer
    else ha

lose_unless_dead : Adapter → ℕ → Adapter
unfolding set_fcport_state
lose_unless_dead ha i =
    if is_dead (ha.fcports i).state then ha else set_fcport_state ha i device_lost

retry_login : Adapter → ℕ → Adapter
unfolding set_fcport
retry_login ha i =
    let flags = ha.dpc_flags in
    if (ha.fcports i).login_retry == 0
    then record (set_fcport ha i (record (ha.fcports i) { login_retry = ha.login_retry_count })) {
      dpc_flags = record flags { relogin_needed = true };
    }
    else ha

-- The caller's host is given by its `vp_idx`.
unfoldable pub mark_device_lost : ℕ → Adapter → ℕ → Bool → Bool → Adapter
unfolding set_fcport_state schedule_rport_del lose_if_online lose_unless_dead retry_login
mark_device_lost vp_idx ha i do_login defer =
    if ha.chip.qlafx00
    then schedule_rport_del (set_fcport_state ha i device_lost) i defer
    else let lost = lose_unless_dead (lose_if_online vp_idx ha i defer) i in
      if do_login then retry_login lost i else lost

-- One port of the list that qla2x00_mark_all_devices_lost goes through.
unfoldable pub lose_port_of : ℕ → Bool → Adapter → ℕ → Adapter
unfolding set_fcport_state schedule_rport_del
lose_port_of vp_idx defer ha i =
    let port = ha.fcports i in
    if not (vp_idx == 0) && not (vp_idx == port.vp_idx)
    then ha
    else if is_dead port.state
    then ha
    else if is_online port.state
    then (let lost = set_fcport_state ha i device_lost in
        if defer || (vp_idx == port.vp_idx) then schedule_rport_del lost i defer else lost)
    else ha

-- The list is the `vp_fcports` of the host.
unfoldable pub mark_all_devices_lost : ℕ → Adapter → List ℕ → Bool → Adapter
unfolding lose_port_of
mark_all_devices_lost vp_idx ha [] defer = ha
mark_all_devices_lost vp_idx ha (i ∷ ports) defer =
    mark_all_devices_lost vp_idx (lose_port_of vp_idx defer ha i) ports defer

-- HZ jiffies are a second; the delay counts tenths.
unfoldable pub set_retry_delay_timestamp : (hz : ℕ) → Adapter → ℕ → ℕ → Adapter
unfolding set_fcport
set_retry_delay_timestamp hz ha i retry_delay =
    if retry_delay == 0
    then ha
    else set_fcport ha i
        (record (ha.fcports i) { retry_delay_timestamp = ha.jiffies + retry_delay * hz / 10 })
