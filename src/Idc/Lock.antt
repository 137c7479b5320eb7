-- ===== src/Idc/Lock.antt =====
-- The lock that the functions share: qla83xx_force_lock_recovery, qla83xx_idc_lock_recovery,
-- qla83xx_idc_lock and qla83xx_idc_unlock (drivers/scsi/qla2xxx/qla_os.c). Here the results are
-- whether QLA_SUCCESS is returned.
pub mod Ends
use scst_qla2xxx.Base.{
  ℕ, zero, suc, ◌+◌, ◌*◌, ◌/◌, Bool, true, false, Option, none, some, not, ◌&&◌, ltb, leb, ◌==◌,
  bit_and, bit_or, if◌then◌else◌,
}
use scst_qla2xxx.Idc.{
  Nic, Peers, reads, rd_reg, wr_reg, pause, lock_recovery, driver_lockid, driver_lock,
  driver_unlock, not32,
}

-- IDC_LOCK_RECOVERY_STAGE1 with the number of the owner.
unfoldable pub stage1 : ℕ → ℕ
stage1 portnum = bit_or 1 (portnum * 4)

-- `data &= (IDC_LOCK_RECOVERY_STAGE2 | ~(idc_lck_rcvry_stage_mask))`
unfoldable pub stage2 : ℕ → ℕ
stage2 word = bit_and word (bit_or 2 (not32 3))

-- The owner of the recovery unlocks by force. A read of the unlock register has no value.
unfoldable pub force_unlock : Nic → ℕ → Nic × Bool
unfolding stage2 wr_reg
force_unlock nic word =
    if not (reads nic driver_unlock && nic.answers driver_lockid)
    then (wr_reg nic lock_recovery (stage2 word), false)
    else (
      wr_reg (wr_reg (wr_reg nic lock_recovery (stage2 word)) driver_lockid 0xFF) lock_recovery 0,
      true,
    )

-- The sleep is without the lock.
unfoldable pub force_lock_recovery : Peers → Nic → Nic × Bool
unfolding stage1 force_unlock pause wr_reg
force_lock_recovery peers nic =
    if not (reads nic lock_recovery)
    then (nic, false)
    else if ltb 0 (bit_and (nic.regs lock_recovery) 3)
    then (nic, true)
    else let slept = pause peers 200 (wr_reg nic lock_recovery (stage1 nic.portnum)) in
      let word = slept.regs lock_recovery in
      if not (reads slept lock_recovery)
      then (slept, false)
      else if bit_and word 0x3C / 4 == nic.portnum
      then force_unlock slept word
      else (slept, true)

-- qla83xx_wait_logic. In an interrupt it does not sleep, and takes only as long as twenty calls of
-- cpu_relax may.
unfoldable pub wait_logic : Peers → Nic → Nic
unfolding pause
wait_logic peers nic = if not peers.in_interrupt then pause peers 100 nic else pause peers 0 nic

-- The rounds of the loop that are left; both reads of a round give the same, unless the holder
-- changes between them, which `swaps` says for the count of pauses.
unfoldable pub lock_recovery_rounds : Peers → (ℕ → Bool) → ℕ → ℕ → Nic → Option (Nic × Bool)
unfolding force_lock_recovery wait_logic
lock_recovery_rounds peers swaps timeout zero nic = none
lock_recovery_rounds peers swaps timeout (suc rounds) nic =
    let rest = lock_recovery_rounds peers swaps timeout rounds (wait_logic peers nic) in
    if not (reads nic driver_lockid)
    then some (nic, false)
    else if leb timeout nic.clock
    then some (force_lock_recovery peers nic)
    else if swaps nic.pauses
    then some (nic, true)
    else rest

-- QLA83XX_MAX_LOCK_RECOVERY_WAIT is two seconds, and a round takes a tenth.
unfoldable pub idc_lock_recovery : Peers → (ℕ → Bool) → Nic → Option (Nic × Bool)
unfolding lock_recovery_rounds
idc_lock_recovery peers swaps nic = lock_recovery_rounds peers swaps (nic.clock + 2 * nic.hz) 22 nic

-- qla83xx_idc_lock, for as many tries as are given. A read of driver_lock that gives another value than
-- 0 takes the lock. It returns without the lock if the register cannot be read or the recovery fails.
unfoldable pub retry_lock : (Nic → Option Nic) → Peers → Option (Nic × Bool) → Option Nic
unfolding wait_logic
retry_lock again peers none = none
retry_lock again peers (some (nic, true)) = again (wait_logic peers nic)
retry_lock again peers (some (nic, false)) = some nic

unfoldable pub idc_lock : Peers → (ℕ → Bool) → ℕ → Nic → Option Nic
unfolding retry_lock idc_lock_recovery wr_reg
idc_lock peers swaps zero nic = none
idc_lock peers swaps (suc tries) nic =
    let again =
      retry_lock (λ n. idc_lock peers swaps tries n) peers (idc_lock_recovery peers swaps nic) in
    if not (reads nic driver_lock)
    then some nic
    else if nic.regs driver_lock == 0
    then again
    else some (wr_reg nic driver_lockid nic.portnum)

-- What a try to unlock does if the lock is this function's. The read of driver_unlock, which releases
-- the lock in the chip, has no effect on the registers that are modelled.
unfoldable pub release : Nic → Nic
unfolding wr_reg
release nic = wr_reg nic driver_lockid 0xFF

abbrev pub is_mine : Nic → Bool
is_mine nic = reads nic driver_lockid && (nic.regs driver_lockid == nic.portnum)

-- `retry_unlock`, with as many retries as are left.
unfoldable pub unlock_tries : Peers → ℕ → Nic → Nic
unfolding release wait_logic
unlock_tries peers zero nic = if is_mine nic then release nic else nic
unlock_tries peers (suc retries) nic =
    let rest = unlock_tries peers retries (wait_logic peers nic) in
    if is_mine nic then release nic else rest

unfoldable pub idc_unlock : Peers → Nic → Nic
unfolding unlock_tries
idc_unlock peers nic = unlock_tries peers 10 nic
