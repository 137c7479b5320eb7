-- ===== src/Examples/Idc.antt =====
-- The theorems about the communication between drivers at concrete inputs, and runs of the code.
use scst_qla2xxx.Base.{
  bit_or, ◌*◌, ℕ, ◌≡◌, ◌==◌, inl, refl, Bool, true, false, none, some, if◌then◌else◌, bit_and,
  arith,
}
use scst_qla2xxx.Base.Mem.{update}
use scst_qla2xxx.Vport.Control.{function_failed}
use scst_qla2xxx.Idc.{
  Nic, Peers, rd_reg, wr_reg, pause, set_own_bit, clear_own_bit, set_drv_ack, clear_drv_ack,
  audit_timestamp, audit_completion, dev_state, drv_presence, idc_control, dev_cold,
  dev_initializing, dev_ready,
}
use scst_qla2xxx.Idc.Owner.{
  class_type, find_fcoe, first_of, fcoe_other_function, presence_mask, reset_ownership,
  dev_partinfo1,
}
use scst_qla2xxx.Idc.Owner.Unique.{IsFcoe, reset_ownership_unique}
use scst_qla2xxx.Idc.Reset.{need_reset_handler, device_bootstrap}
use scst_qla2xxx.Idc.Reset.Acked.{IsAcked, need_reset_handler-IsAcked}
use scst_qla2xxx.Idc.Handler.{
  decode, idc_state_handler, give_up_ownership, bootstrapped, reset_done, act, round_of, go_on,
  rounds, result_of,
}
use scst_qla2xxx.Idc.Handler.Outcome.{Outcome, idc_state_handler-Outcome}
use scst_qla2xxx.Idc.Handler.Timeout.{waits, idc_state_handler_timeout}
use scst_qla2xxx.Idc.Lock.{stage1, stage2, idc_lock_recovery}
use scst_qla2xxx.Idc.Lock.Ends.{idc_lock_recovery_total}
use scst_qla2xxx.Idc.Core.{
  ask_reset, acknowledge, initiating_reset, check_driver_presence, settle, perform, nic_core_reset,
  heartbeat_rounds, check_nic_core_fw_alive,
}
use scst_qla2xxx.Idc.Core.Done.{Done, nic_core_reset-Done}

-- The functions 0 and 1 are FCoE functions and present; the device is ready.
abbrev registers : ℕ → ℕ
registers addr =
    if addr == dev_state
    then dev_ready
    else if addr == drv_presence
    then 3
    else if addr == dev_partinfo1
    then 0x22
    else 0

abbrev nic : Nic
nic = record {
  regs = registers;
  answers = λ addr. true;
  portnum = 0;
  clock = 100;
  pauses = 0;
  hz = 10;
  reset_owner = false;
  quiesce_owner = false;
  dont_reset_hba = false;
  hung = true;
  idc_audit_ts = 0;
  dev_init_timeout = 2;
  reset_timeout = 1;
  device_failed = false;
  commands_aborted = false;
  online = true;
  init_done = true;
}

-- The other functions do nothing, and the firmware starts.
abbrev peers : Peers
peers = record {
  change = λ n regs. regs;
  late = λ n. 0;
  restart = λ n. 0;
  unset = 0;
  in_interrupt = false;
}

-- The function 1 does not acknowledge, and is no longer present.
need_reset_handler-IsAcked_example :
    ((need_reset_handler peers nic).1 ≡ true)
    × ((need_reset_handler peers nic).0.regs dev_state ≡ dev_cold)
    × IsAcked ((need_reset_handler peers nic).0)
need_reset_handler-IsAcked_example =
    need_reset_handler-IsAcked peers nic
      (record { ack_answers = refl; presence_answers = refl; state_answers = refl })

-- The function 0 is the owner.
owner_0 : (reset_ownership peers nic).reset_owner ≡ true
unfolding reset_ownership rd_reg fcoe_other_function find_fcoe first_of class_type presence_mask
owner_0 = refl

-- The function 1 is not, and would not be if it alone was present.
abbrev nic_1 : Nic
nic_1 = record nic { portnum = 1 }

not_owner_1 : (reset_ownership peers nic_1).reset_owner ≡ false
unfolding reset_ownership rd_reg fcoe_other_function find_fcoe first_of class_type presence_mask
not_owner_1 = refl

IsFcoe-0 : IsFcoe 0x22 0 0
unfolding class_type
IsFcoe-0 = inl (omega arith, refl)

reset_ownership_unique_example : nic.portnum ≡ nic.portnum
reset_ownership_unique_example =
    reset_ownership_unique peers peers nic nic refl refl refl refl refl IsFcoe-0 IsFcoe-0 refl refl
      owner_0 owner_0

-- The owner finds a cold device, and starts it.
abbrev cold_nic : Nic
cold_nic = record nic { regs = update registers dev_state dev_cold; reset_owner = true }

abbrev started : Nic
unfolding idc_state_handler
started = elim (idc_state_handler peers 5 cold_nic) [ none ↦ cold_nic | some r ↦ r.0 ]

cold_starts : idc_state_handler peers 5 cold_nic ≡ some (started, 0)
unfolding idc_state_handler result_of rounds go_on round_of act bootstrapped device_bootstrap
    give_up_ownership audit_completion decode wr_reg rd_reg
cold_starts = refl

idc_state_handler-Outcome_example : Outcome started 0
idc_state_handler-Outcome_example =
    idc_state_handler-Outcome peers 5 cold_nic started 0 refl cold_starts

-- The device stays in initialisation.
abbrev slow_nic : Nic
slow_nic = record nic { regs = update registers dev_state dev_initializing }

slow_waits : waits false (decode dev_initializing) ≡ true
unfolding decode
slow_waits = refl

idc_state_handler_timeout_example :
    (nic' : Nic) × (idc_state_handler peers 3 slow_nic ≡ some (nic', function_failed))
idc_state_handler_timeout_example =
    idc_state_handler_timeout peers slow_nic (λ n regs. refl) refl slow_waits

-- A whole reset by the owner.
abbrev reset_nic : Nic
unfolding nic_core_reset
reset_nic = elim (nic_core_reset peers 8 nic) [ none ↦ nic | some r ↦ r.0 ]

nic_resets : nic_core_reset peers 8 nic ≡ some (reset_nic, 0)
unfolding nic_core_reset check_driver_presence perform initiating_reset ask_reset audit_timestamp
    acknowledge set_drv_ack set_own_bit settle clear_drv_ack clear_own_bit reset_ownership
    fcoe_other_function find_fcoe first_of class_type presence_mask idc_state_handler result_of
    rounds go_on round_of act bootstrapped reset_done need_reset_handler device_bootstrap
    give_up_ownership audit_completion decode wr_reg rd_reg pause
nic_resets = refl

nic_core_reset-Done_example : Done reset_nic
nic_core_reset-Done_example = nic_core_reset-Done peers 8 nic reset_nic refl nic_resets

idc_lock_recovery_total_example :
    (r : Nic × Bool) × (idc_lock_recovery peers (λ n. false) nic ≡ some r)
idc_lock_recovery_total_example = idc_lock_recovery_total peers (λ n. false) nic 1 refl refl

-- The second stage of the lock recovery has the stage 0.
stage_is_0 : bit_and (stage2 (stage1 5)) 3 ≡ 0
unfolding stage1 stage2
stage_is_0 = refl

-- The whole control word is cleared, the bit that forbids resets too.
control_cleared :
    (device_bootstrap peers (record nic { regs = update registers idc_control 3 })).0.regs
      idc_control
    ≡ 0
unfolding device_bootstrap wr_reg
control_cleared = refl

-- A reset that starts at 1000 jiffies of 10 a second and ends a second later has a long duration in the
-- audit register, since its start is in seconds.
audit_is_long :
    (audit_completion (record nic {
      clock = 1010;
      idc_audit_ts = (audit_timestamp (record nic { clock = 1000 })).idc_audit_ts;
    })).regs
      0x22102394
    ≡ bit_or 128 (91 * 256)
unfolding audit_completion audit_timestamp wr_reg
audit_is_long = refl

-- A heartbeat that does not change is no heartbeat.
not_alive : (r : Nic) × (check_nic_core_fw_alive peers 12 nic ≡ some (r, false))
unfolding check_nic_core_fw_alive heartbeat_rounds pause rd_reg
not_alive = (_, refl)
