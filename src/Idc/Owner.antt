-- ===== src/Idc/Owner.antt =====
-- Who performs a reset: qla83xx_reset_ownership (drivers/scsi/qla2xxx/qla_init.c), on ISP83xx.
pub mod Unique
use scst_qla2xxx.Base.{
  ℕ, zero, suc, ◌+◌, ◌-◌, ◌*◌, ◌/◌, ◌%◌, ◌^◌, Bool, true, false, Option, none, some, not, ◌&&◌, ltb,
  ◌==◌, bit_and, bit_or, if◌then◌else◌,
}
use scst_qla2xxx.Idc.{Nic, Peers, rd_reg, drv_presence, not32}

-- QLA83XX_DEV_PARTINFO1, QLA83XX_DEV_PARTINFO2
abbrev pub dev_partinfo1 : ℕ
dev_partinfo1 = 0x221023E0

abbrev pub dev_partinfo2 : ℕ
dev_partinfo2 = 0x221023E4

-- The class of the function `i` of a register; QLA83XX_CLASS_TYPE_FCOE is 2.
unfoldable pub class_type : ℕ → ℕ → ℕ
class_type info i = info / 2 ^ (i * 4) % 4

-- The first other FCoE function of a register, whose functions are numbered from `base`; `i` are seen.
unfoldable pub find_fcoe : ℕ → ℕ → ℕ → ℕ → ℕ → Option ℕ
unfolding class_type
find_fcoe info portnum base zero i = none
find_fcoe info portnum base (suc rounds) i =
    let rest = find_fcoe info portnum base rounds (i + 1) in
    if (class_type info i == 2) && not (i + base == portnum) then some (i + base) else rest

-- The second register is searched only if the first has none; 0xffff is the value of no function.
unfoldable pub first_of : Option ℕ → Option ℕ → ℕ
first_of (some i) o = i
first_of none (some i) = i
first_of none none = 0xFFFF

unfoldable pub fcoe_other_function : ℕ → ℕ → ℕ → ℕ
unfolding find_fcoe first_of
fcoe_other_function info1 info2 portnum =
    first_of (find_fcoe info1 portnum 0 8 0) (find_fcoe info2 portnum 8 8 0)

unfoldable pub presence_mask : ℕ → ℕ → ℕ
presence_mask portnum other =
    not32 (bit_or (2 ^ portnum) (if other == 0xFFFF then 0 else 2 ^ other))

-- The flag is set, and never cleared here.
unfoldable pub reset_ownership : Peers → Nic → Nic
unfolding rd_reg fcoe_other_function presence_mask
reset_ownership peers nic =
    let present = rd_reg nic drv_presence peers.unset in
    let info1 = rd_reg nic dev_partinfo1 peers.unset in
    let info2 = rd_reg nic dev_partinfo2 peers.unset in
    let other = fcoe_other_function info1 info2 nic.portnum in
    if (bit_and present (presence_mask nic.portnum other) == 0) && ltb nic.portnum other
    then record nic { reset_owner = true }
    else nic
