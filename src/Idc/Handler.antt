-- ===== src/Idc/Handler.antt =====
-- The state machine qla83xx_idc_state_handler (drivers/scsi/qla2xxx/qla_os.c).
pub mod Outcome
pub mod Timeout
use scst_qla2xxx.Base.{
  ℕ, zero, suc, ◌+◌, ◌*◌, Bool, true, false, Option, none, some, not, ◌&&◌, leb, ◌==◌,
  if◌then◌else◌,
}
use scst_qla2xxx.Idc.{
  Nic, Peers, rd_reg, wr_reg, pause, unlocked, audit_completion, clear_drv_presence,
  dev_failed_handler, dev_state, dev_cold, dev_initializing, dev_ready, dev_need_reset,
  dev_need_quiescent, dev_failed, dev_quiescent, bad_value,
}
use scst_qla2xxx.Idc.Reset.{need_reset_handler, device_bootstrap}
use scst_qla2xxx.Vport.Control.{function_failed}

-- The states that the handler tells apart.
pub data DevState : Type 0 where
  ready cold initializing need_reset need_quiescent quiescent failed bad unknown : DevState

unfoldable pub decode : ℕ → DevState
decode s =
    if s == dev_ready
    then ready
    else if s == dev_cold
    then cold
    else if s == dev_initializing
    then initializing
    else if s == dev_need_reset
    then need_reset
    else if s == dev_need_quiescent
    then need_quiescent
    else if s == dev_quiescent
    then quiescent
    else if s == dev_failed
    then failed
    else if s == bad_value
    then bad
    else unknown

-- The variables of the loop: `var` is the local `dev_state`.
pub record Loop : Type 0 where
  pub nic : Nic
  pub dev_init_timeout : ℕ
  pub rval : ℕ
  pub var : ℕ

-- `jiffies + (ha->fcoe_dev_init_timeout * HZ)`
abbrev pub deadline : Nic → ℕ
deadline nic = nic.clock + nic.dev_init_timeout * nic.hz

-- How a round ends.
pub data Next : Type 0 where
  again exit : Loop → Next

-- Wait for another function to change the state.
unfoldable pub wait : Peers → Loop → Next
unfolding pause
wait peers l = again (record l { nic = pause peers 1000 l.nic })

-- `dev_init_timeout = jiffies + ...` after the wait.
unfoldable pub wait_anew : Peers → Loop → Next
unfolding pause
wait_anew peers l =
    let nic = pause peers 1000 l.nic in
    again (record l { nic = nic; dev_init_timeout = deadline nic })

-- The owner records the completion, and is owner no more.
unfoldable pub give_up_ownership : Nic → Nic
unfolding audit_completion
give_up_ownership nic = record (if nic.reset_owner then audit_completion nic else nic) {
  reset_owner = false;
}

unfoldable pub bootstrapped : Peers → Loop → Next
unfolding device_bootstrap
bootstrapped peers l =
    let (nic, rval) = device_bootstrap peers l.nic in again (record l { nic = nic; rval = rval })

unfoldable pub reset_done : Peers → Loop → Next
unfolding need_reset_handler
reset_done peers l =
    let nic = (need_reset_handler peers l.nic).0 in
    again (record l { nic = nic; dev_init_timeout = deadline nic })

-- The switch.
unfoldable pub act : Peers → DevState → Loop → Next
unfolding wait wait_anew give_up_ownership bootstrapped reset_done clear_drv_presence
    dev_failed_handler
act peers ready l = exit (record l { nic = give_up_ownership l.nic })
act peers cold l = if l.nic.reset_owner then bootstrapped peers l else wait peers l
act peers initializing l = wait peers l
act peers need_reset l =
    if not l.nic.dont_reset_hba && l.nic.reset_owner then reset_done peers l else wait_anew peers l
act peers need_quiescent l = wait peers l
act peers quiescent l = if l.nic.quiesce_owner then exit l else wait_anew peers l
act peers failed l = exit (record l {
  nic = dev_failed_handler (unlocked peers (clear_drv_presence (give_up_ownership l.nic)));
  rval = function_failed;
})
act peers bad l = wait peers l
act peers unknown l =
    exit (record l { nic = dev_failed_handler (unlocked peers l.nic); rval = function_failed })

-- After the deadline the device is declared failed, which the read that follows sees.
unfoldable pub round_of : Peers → Loop → Next
unfolding act wr_reg rd_reg decode
round_of peers l =
    let nic =
      if leb l.dev_init_timeout l.nic.clock then wr_reg l.nic dev_state dev_failed else l.nic in
    let var = rd_reg nic dev_state l.var in
    act peers (decode var) (record l { nic = nic; var = var })

unfoldable pub go_on : (Loop → Option Loop) → Next → Option Loop
go_on rest (again l) = rest l
go_on rest (exit l) = some l

-- The rounds of the loop, as many as are given; `none` if it has not ended by then.
unfoldable pub rounds : Peers → ℕ → Loop → Option Loop
unfolding round_of go_on
rounds peers zero l = none
rounds peers (suc fuel) l = go_on (λ l'. rounds peers fuel l') (round_of peers l)

-- The device and the result, 0 on success.
unfoldable pub result_of : Option Loop → Option (Nic × ℕ)
result_of none = none
result_of (some l) = some (l.nic, l.rval)

unfoldable pub idc_state_handler : Peers → ℕ → Nic → Option (Nic × ℕ)
unfolding rounds result_of
idc_state_handler peers fuel nic = result_of (
    rounds peers fuel
      (record { nic = nic; dev_init_timeout = deadline nic; rval = 0; var = peers.unset }))
