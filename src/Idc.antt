-- ===== src/Idc.antt =====
-- Inter-driver communication of ISP83xx: the functions of one adapter share registers, which say in
-- what state the device is, who is present and who has acknowledged a reset. The registers and what
-- the driver keeps of them (drivers/scsi/qla2xxx/qla_def.h, qla_nx.h), and the accesses
-- qla83xx_rd_reg and qla83xx_wr_reg, __qla83xx_set_drv_ack, __qla83xx_clear_drv_ack,
-- __qla83xx_get_idc_control, __qla83xx_set_idc_control, qla83xx_idc_audit (qla_init.c) and
-- __qla83xx_set_drv_presence, __qla83xx_clear_drv_presence (qla_os.c).
pub mod Owner
pub mod Lock
pub mod Reset
pub mod Handler
pub mod Core
use scst_qla2xxx.Base.{
  ℕ, ◌+◌, ◌-◌, ◌*◌, ◌/◌, ◌%◌, ◌^◌, Bool, true, false, Option, none, some, ◌==◌, not, ◌&&◌, bit_and,
  bit_or, if◌then◌else◌,
}
use scst_qla2xxx.Base.Words.{u32}
use scst_qla2xxx.Base.Mem.{update}

-- QLA83XX_IDC_DEV_STATE and so on.
abbrev pub dev_state : ℕ
dev_state = 0x22102384

abbrev pub drv_presence : ℕ
drv_presence = 0x22102388

abbrev pub drv_ack : ℕ
drv_ack = 0x2210238C

abbrev pub idc_control : ℕ
idc_control = 0x22102390

abbrev pub idc_audit_reg : ℕ
idc_audit_reg = 0x22102394

abbrev pub lock_recovery : ℕ
lock_recovery = 0x2210239C

abbrev pub driver_lockid : ℕ
driver_lockid = 0x22102104

abbrev pub driver_lock : ℕ
driver_lock = 0x8111C028

abbrev pub driver_unlock : ℕ
driver_unlock = 0x8111C02C

abbrev pub fw_heartbeat : ℕ
fw_heartbeat = 0x221020B0

-- QLA8XXX_DEV_COLD and so on.
abbrev pub dev_cold : ℕ
dev_cold = 1

abbrev pub dev_initializing : ℕ
dev_initializing = 2

abbrev pub dev_ready : ℕ
dev_ready = 3

abbrev pub dev_need_reset : ℕ
dev_need_reset = 4

abbrev pub dev_need_quiescent : ℕ
dev_need_quiescent = 5

abbrev pub dev_failed : ℕ
dev_failed = 6

abbrev pub dev_quiescent : ℕ
dev_quiescent = 7

abbrev pub bad_value : ℕ
bad_value = 0xBAD0BAD0

-- What the driver keeps, and the registers. `answers` says which registers can be accessed, `clock` is
-- the count of jiffies, and `pauses` counts the times at which the lock was given up. The last three
-- fields are what qla8xxx_dev_failed_handler does to the host.
pub record Nic : Type 0 where
  pub regs : ℕ → ℕ
  pub answers : ℕ → Bool
  pub portnum : ℕ
  pub clock : ℕ
  pub pauses : ℕ
  pub hz : ℕ
  pub reset_owner : Bool
  pub quiesce_owner : Bool
  pub dont_reset_hba : Bool
  pub hung : Bool
  pub idc_audit_ts : ℕ
  pub dev_init_timeout : ℕ
  pub reset_timeout : ℕ
  pub device_failed : Bool
  pub commands_aborted : Bool
  pub online : Bool
  pub init_done : Bool

-- The other functions and the chip, which change registers while this one does not hold the lock, in
-- the order in which it gives the lock up; how many jiffies more than asked a sleep takes; how
-- qla83xx_restart_nic_firmware ends; what a variable holds that was not
-- set; and whether in_interrupt() holds.
pub record Peers : Type 0 where
  pub change : ℕ → (ℕ → ℕ) → ℕ → ℕ
  pub late : ℕ → ℕ
  pub restart : ℕ → ℕ
  pub unset : ℕ
  pub in_interrupt : Bool

-- Whether qla83xx_rd_reg succeeds: the access does, and the value is not the one that a register has
-- during a soft reset, for which the read is tried again for two seconds.
abbrev pub reads : Nic → ℕ → Bool
reads nic addr = nic.answers addr && not (nic.regs addr == bad_value)

-- What a variable that held `old` holds after qla83xx_rd_reg; an access that fails leaves it.
unfoldable pub rd_reg : Nic → ℕ → ℕ → ℕ
rd_reg nic addr old = if nic.answers addr then nic.regs addr else old

-- A failing write has no effect.
unfoldable pub wr_reg : Nic → ℕ → ℕ → Nic
wr_reg nic addr v =
    if nic.answers addr then record nic { regs = update nic.regs addr (u32 v) } else nic

-- `qla83xx_idc_unlock; msleep(ms); qla83xx_idc_lock`
unfoldable pub pause : Peers → ℕ → Nic → Nic
pause peers ms nic = record nic {
  regs = peers.change nic.pauses nic.regs;
  clock = nic.clock + ms * nic.hz / 1000 + peers.late nic.pauses;
  pauses = nic.pauses + 1;
}

-- The lock is given up for something that takes no sleep.
abbrev pub unlocked : Peers → Nic → Nic
unlocked peers nic = record nic { regs = peers.change nic.pauses nic.regs; pauses = nic.pauses + 1 }

-- `1 << ha->portnum`
abbrev pub own_bit : Nic → ℕ
own_bit nic = 2 ^ nic.portnum

-- `~x` of 32 bits
abbrev pub not32 : ℕ → ℕ
not32 x = 4294967295 - u32 x

-- The register is written only if it could be read.
unfoldable pub set_own_bit : ℕ → Nic → Nic
unfolding wr_reg
set_own_bit addr nic =
    if reads nic addr then wr_reg nic addr (bit_or (nic.regs addr) (own_bit nic)) else nic

unfoldable pub clear_own_bit : ℕ → Nic → Nic
unfolding wr_reg
clear_own_bit addr nic =
    if reads nic addr then wr_reg nic addr (bit_and (nic.regs addr) (not32 (own_bit nic))) else nic

-- __qla83xx_set_drv_ack, __qla83xx_clear_drv_ack, __qla83xx_set_drv_presence,
-- __qla83xx_clear_drv_presence
unfoldable pub set_drv_ack : Nic → Nic
unfolding set_own_bit
set_drv_ack nic = set_own_bit drv_ack nic

unfoldable pub clear_drv_ack : Nic → Nic
unfolding clear_own_bit
clear_drv_ack nic = clear_own_bit drv_ack nic

unfoldable pub set_drv_presence : Nic → Nic
unfolding set_own_bit
set_drv_presence nic = set_own_bit drv_presence nic

unfoldable pub clear_drv_presence : Nic → Nic
unfolding clear_own_bit
clear_drv_presence nic = clear_own_bit drv_presence nic

-- jiffies_to_msecs
abbrev pub to_msecs : Nic → ℕ → ℕ
to_msecs nic j = j * 1000 / nic.hz

-- The two kinds of qla83xx_idc_audit.
unfoldable pub audit_timestamp : Nic → Nic
unfolding wr_reg
audit_timestamp nic =
    let ts = u32 (to_msecs nic nic.clock) / 1000 in
    wr_reg (record nic { idc_audit_ts = ts }) idc_audit_reg (bit_or nic.portnum (ts * 256))

-- The time stamp, which is in seconds, is converted once more.
unfoldable pub audit_completion : Nic → Nic
unfolding wr_reg
audit_completion nic =
    let ms =
      u32 (u32 (to_msecs nic nic.clock) + 4294967296 - u32 (to_msecs nic nic.idc_audit_ts)) in
    wr_reg nic idc_audit_reg (bit_or (bit_or nic.portnum 128) (ms / 1000 * 256))

-- qla8xxx_dev_failed_handler, on this chip.
unfoldable pub dev_failed_handler : Nic → Nic
dev_failed_handler nic = record nic {
  device_failed = true;
  commands_aborted = true;
  online = false;
  init_done = false;
}
