-- ===== src/Idc/Core.antt =====
-- Resets of the NIC core and the works that lead to them: qla83xx_initiating_reset,
-- qla83xx_check_driver_presence and qla83xx_nic_core_reset (drivers/scsi/qla2xxx/qla_init.c),
-- qla83xx_schedule_work, qla83xx_nic_core_unrecoverable_work, qla83xx_idc_state_handler_work,
-- qla83xx_check_nic_core_fw_alive, qla83xx_nic_core_reset_work and qla83xx_service_idc_aen (qla_os.c).
pub mod Done
use scst_qla2xxx.Base.{
  ℕ, zero, suc, ◌+◌, ◌*◌, ◌/◌, Bool, true, false, Option, none, some, not, ◌&&◌, ◌||◌, ltb, leb,
  ◌==◌, if◌then◌else◌,
}
use scst_qla2xxx.Base.Words.{has}
use scst_qla2xxx.Vport.Control.{function_failed}
use scst_qla2xxx.Idc.{
  Nic, Peers, rd_reg, wr_reg, pause, unlocked, own_bit, set_drv_ack, clear_drv_ack, audit_timestamp,
  dev_state, drv_presence, idc_control, dev_ready, dev_need_reset, dev_need_quiescent, dev_failed,
  fw_heartbeat,
}
use scst_qla2xxx.Idc.Owner.{reset_ownership}
use scst_qla2xxx.Idc.Handler.{idc_state_handler}

-- "Wait for IDC state change READY -> NEED_RESET", for as many rounds as are given.
unfoldable pub wait_not_ready : Peers → ℕ → Nic → ℕ → Option Nic
unfolding pause rd_reg
wait_not_ready peers zero nic state = none
wait_not_ready peers (suc rounds) nic state =
    let slept = pause peers 200 nic in
    let rest = wait_not_ready peers rounds slept (rd_reg slept dev_state state) in
    if state == dev_ready then rest else some nic

-- The owner of a reset asks the others for it.
unfoldable pub ask_reset : Nic → Nic
unfolding wr_reg audit_timestamp
ask_reset nic = audit_timestamp (wr_reg nic dev_state dev_need_reset)

-- The last step acknowledges the reset.
unfoldable pub acknowledge : Option Nic → Option (Nic × ℕ)
unfolding set_drv_ack
acknowledge none = none
acknowledge (some nic) = some (set_drv_ack nic, 0)

-- QLA83XX_IDC_RESET_DISABLED is bit 0.
unfoldable pub initiating_reset : Peers → ℕ → Nic → Option (Nic × ℕ)
unfolding rd_reg ask_reset wait_not_ready acknowledge
initiating_reset peers fuel nic =
    let state = rd_reg nic dev_state peers.unset in
    if has (rd_reg nic idc_control peers.unset) 1
    then some (nic, function_failed)
    else if nic.reset_owner && (state == dev_ready)
    then acknowledge (some (ask_reset nic))
    else acknowledge (wait_not_ready peers fuel nic state)

-- The variable is 0 if the register cannot be read.
unfoldable pub check_driver_presence : Nic → Bool
unfolding rd_reg
check_driver_presence nic = has (rd_reg nic drv_presence 0) (own_bit nic)

-- After the state handler.
unfoldable pub settle : Option (Nic × ℕ) → Option (Nic × ℕ)
unfolding clear_drv_ack
settle none = none
settle (some (nic, rval)) =
    some (clear_drv_ack (if rval == 0 then record nic { hung = false } else nic), rval)

unfoldable pub perform : Peers → ℕ → Option (Nic × ℕ) → Option (Nic × ℕ)
unfolding settle
perform peers fuel none = none
perform peers fuel (some (nic, rval)) =
    let handled = settle (idc_state_handler peers fuel nic) in
    if rval == 0 then handled else some (nic, rval)

-- The loops are given `fuel` rounds each.
unfoldable pub nic_core_reset : Peers → ℕ → Nic → Option (Nic × ℕ)
unfolding check_driver_presence perform initiating_reset
nic_core_reset peers fuel nic =
    if nic.device_failed
    then some (nic, function_failed)
    else if not (check_driver_presence nic)
    then some (nic, function_failed)
    else perform peers fuel (initiating_reset peers fuel (reset_ownership peers nic))

-- The work codes MBA_IDC_AEN and so on.
pub data WorkCode : Type 0 where
  idc_aen nic_core_reset_code idc_state_handler_code nic_core_unrecoverable : WorkCode

-- The queues of work that are there, and that a reset is handled; the work that is queued is the result.
pub record WorkQueues : Type 0 where
  pub dpc_lp_wq : Bool
  pub dpc_hp_wq : Bool
  pub reset_active : Bool

unfoldable pub schedule_work : WorkQueues → WorkCode → Option WorkCode
schedule_work q idc_aen = if q.dpc_lp_wq then some idc_aen else none
schedule_work q nic_core_reset_code =
    if not q.reset_active && q.dpc_hp_wq then some nic_core_reset_code else none
schedule_work q idc_state_handler_code = if q.dpc_hp_wq then some idc_state_handler_code else none
schedule_work q nic_core_unrecoverable = if q.dpc_hp_wq then some nic_core_unrecoverable else none

-- qla83xx_nic_core_unrecoverable_work
unfoldable pub unrecoverable_work : Peers → WorkQueues → Nic → Nic × Option WorkCode
unfolding reset_ownership wr_reg schedule_work
unrecoverable_work peers q nic =
    let nic' = reset_ownership peers nic in
    if nic'.reset_owner
    then (
      wr_reg (record nic' { reset_owner = false }) dev_state dev_failed,
      schedule_work q idc_state_handler_code,
    )
    else (nic', none)

-- qla83xx_idc_state_handler_work, where the variable is 0 at first.
unfoldable pub state_handler_work : Peers → ℕ → Nic → Option (Nic × ℕ)
unfolding rd_reg idc_state_handler
state_handler_work peers fuel nic =
    let state = rd_reg nic dev_state 0 in
    let handled = idc_state_handler peers fuel nic in
    if (state == dev_failed) || (state == dev_need_quiescent) then handled else some (nic, 0)

-- qla83xx_check_nic_core_fw_alive: whether the heartbeat changes within a second; a round takes a tenth.
unfoldable pub heartbeat_rounds : Peers → ℕ → ℕ → Nic → ℕ → ℕ → Option (Nic × Bool)
unfolding rd_reg pause
heartbeat_rounds peers deadline zero nic counter1 counter2 = none
heartbeat_rounds peers deadline (suc rounds) nic counter1 counter2 =
    let first = rd_reg nic fw_heartbeat counter1 in
    let slept = pause peers 100 nic in
    let second = rd_reg slept fw_heartbeat counter2 in
    let rest = heartbeat_rounds peers deadline rounds (unlocked peers slept) first second in
    if ltb deadline nic.clock
    then some (nic, false)
    else if first == second
    then rest
    else some (unlocked peers slept, true)

unfoldable pub check_nic_core_fw_alive : Peers → ℕ → Nic → Option (Nic × Bool)
unfolding heartbeat_rounds
check_nic_core_fw_alive peers fuel nic =
    heartbeat_rounds peers (nic.clock + nic.hz) fuel nic peers.unset peers.unset

-- A firmware that is alive is reset only if the device needs it; then the lock is given up.
unfoldable pub reset_if_needed : Peers → ℕ → Option (Nic × Bool) → Option (Nic × ℕ)
unfolding rd_reg nic_core_reset
reset_if_needed peers fuel none = none
reset_if_needed peers fuel (some (nic, alive)) =
    let needed = rd_reg nic dev_state 0 == dev_need_reset in
    let reset = nic_core_reset peers fuel (if alive then unlocked peers nic else nic) in
    if alive && not needed then some (nic, 0) else reset

-- qla83xx_nic_core_reset_work; `mctp` says that the adapter is an ISP2031, on which the work takes a
-- dump instead.
unfoldable pub nic_core_reset_work : Peers → WorkQueues → Bool → ℕ → Nic → Option (Nic × ℕ)
unfolding reset_if_needed check_nic_core_fw_alive
nic_core_reset_work peers q mctp fuel nic =
    let reset = reset_if_needed peers fuel (check_nic_core_fw_alive peers fuel nic) in
    if mctp || q.reset_active then some (nic, 0) else reset

-- qla83xx_service_idc_aen. `alive` is what qla83xx_check_nic_core_fw_alive gives;
-- QLA83XX_IDC_GRACEFUL_RESET is bit 1.
unfoldable pub service_idc_aen : Peers → WorkQueues → Bool → Nic → Option WorkCode
unfolding rd_reg schedule_work
service_idc_aen peers q alive nic =
    let state = rd_reg nic dev_state peers.unset in
    if state == dev_need_reset
    then if has (rd_reg nic idc_control peers.unset) 2
      then schedule_work q nic_core_reset_code
      else if alive
      then schedule_work q nic_core_reset_code
      else none
    else if (state == dev_failed) || (state == dev_need_quiescent)
    then schedule_work q idc_state_handler_code
    else none
