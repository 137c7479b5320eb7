-- ===== src/Idc/Reset.antt =====
-- The steps of a reset of the NIC core: qla83xx_need_reset_handler and qla83xx_device_bootstrap
-- (drivers/scsi/qla2xxx/qla_os.c).
pub mod Acked
use scst_qla2xxx.Base.{
  ℕ, zero, suc, ◌+◌, ◌-◌, ◌*◌, ◌≤◌, ◌<◌, ◌≡◌, ◌⊎◌, inl, inr, refl, Bool, true, false, not, leb,
  ◌==◌, bit_and, arith, if◌then◌else◌, Bool-cases,
}
use scst_qla2xxx.Base.Mem.{update}
use scst_qla2xxx.Idc.{
  Nic, Peers, rd_reg, wr_reg, pause, unlocked, dev_state, drv_ack, drv_presence, idc_control,
  dev_cold, dev_initializing, dev_ready, dev_failed,
}

-- `drv_ack` and `drv_presence` as the loop reads them.
record Acks : Type 0 where
  acks : ℕ
  present : ℕ

read_acks : Nic → Acks → Acks
unfolding rd_reg
read_acks nic old = record {
  acks = rd_reg nic drv_ack old.acks;
  present = rd_reg nic drv_presence old.present;
}

-- All who are present have acknowledged.
all_acked : Acks → Bool
all_acked a = bit_and a.acks a.present == a.present

-- Those who did not acknowledge in time are no longer present.
time_out : Nic → Acks → Nic
unfolding wr_reg
time_out nic a = if a.acks == a.present then nic else wr_reg nic drv_presence a.acks

-- The loop, for as many rounds as are left; `none` of them is left when it did not end.
wait_acks : Peers → ℕ → ℕ → Nic → Acks → Nic × Bool
unfolding read_acks all_acked time_out pause
wait_acks peers ack_timeout zero nic old = (nic, false)
wait_acks peers ack_timeout (suc rounds) nic old =
    let a = read_acks nic old in
    let rest = wait_acks peers ack_timeout rounds (pause peers 1000 nic) a in
    if all_acked a
    then (nic, true)
    else if leb ack_timeout nic.clock
    then (time_out nic a, true)
    else rest

-- Each round takes a second at least, so the timeout ends the loop; the second result says that it did.
unfoldable pub need_reset_handler : Peers → Nic → Nic × Bool
unfolding wait_acks wr_reg
need_reset_handler peers nic =
    let waited =
      wait_acks peers (nic.clock + nic.reset_timeout * nic.hz) (suc nic.reset_timeout) nic
        (record { acks = peers.unset; present = peers.unset }) in
    (wr_reg (waited.0) dev_state dev_cold, waited.1)

-- The result of qla83xx_restart_nic_firmware is returned, 0 on success. The whole control word is
-- cleared, not only its graceful-reset bit.
unfoldable pub device_bootstrap : Peers → Nic → Nic × ℕ
unfolding wr_reg
device_bootstrap peers nic =
    let begun = wr_reg (wr_reg nic dev_state dev_initializing) idc_control 0 in
    let rval = peers.restart nic.pauses in
    (wr_reg (unlocked peers begun) dev_state (if rval == 0 then dev_ready else dev_failed), rval)
