-- ===== src/Response/Status.antt =====
-- What qla2x00_status_entry (drivers/scsi/qla2xxx/qla_isr.c) works out from an entry: its local
-- variables are the record `Locals`, its switch is `outcome`. Response/Entry is the handler.
pub mod Result
use scst_qla2xxx.Base.{
  ℕ, ◌+◌, ◌-◌, ◌%◌, Bool, true, false, Option, none, some, not, bit_and, ◌&&◌, ◌||◌, ltb, ◌==◌,
  if◌then◌else◌,
}
use scst_qla2xxx.Base.Words.{u8, u32, has}
use scst_qla2xxx.Adapter.{Adapter, ScsiCmnd}
use scst_qla2xxx.Response.Packet.{Pkt}
use scst_qla2xxx.Response.Handle.{
  did_ok, did_bus_busy, did_error, did_reset, did_transport_disrupted,
}
use scst_qla2xxx.Response.Sense.{fcp_swap}

-- The kernel's HZ, and the handlers of the driver that are not modelled: those that status entries of
-- two kinds are handed to, and those of the entry types VP_RPT_ID_IOCB_TYPE,
-- LOGINOUT_PORT_IOCB_TYPE, CT_IOCB_TYPE, ELS_IOCB_TYPE and MBX_IOCB_TYPE.
pub record Others : Type 0 where
  pub hz : ℕ
  pub process_bidir_status_iocb : Adapter → Pkt → ℕ → ℕ → Adapter
  pub handle_dif_error : ScsiCmnd → Pkt → ScsiCmnd
  pub other_entry : Adapter → ℕ → Pkt → Adapter

-- CS_* of qla_def.h, and SAM_STAT_* of the kernel.
abbrev pub cs_complete : ℕ
cs_complete = 0x0

abbrev pub cs_timeout : ℕ
cs_timeout = 0x6

abbrev pub cs_data_overrun : ℕ
cs_data_overrun = 0x7

abbrev pub cs_data_underrun : ℕ
cs_data_underrun = 0x15

abbrev pub cs_queue_full : ℕ
cs_queue_full = 0x1C

abbrev pub task_set_full : ℕ
task_set_full = 0x28

abbrev pub sam_busy : ℕ
sam_busy = 0x08

-- SS_RESIDUAL_UNDER, SS_RESIDUAL_OVER, SS_SENSE_LEN_VALID and SS_RESPONSE_INFO_LEN_VALID.
abbrev pub residual_under : ℕ → Bool
residual_under scsi_status = has scsi_status 0x800

abbrev pub residual_over : ℕ → Bool
residual_over scsi_status = has scsi_status 0x400

abbrev pub sense_len_valid : ℕ → Bool
sense_len_valid scsi_status = has scsi_status 0x200

abbrev pub info_len_valid : ℕ → Bool
info_len_valid scsi_status = has scsi_status 0x100

-- SS_MASK is 0xfff; STATUS_MASK is the kernel's 0xfe.
abbrev pub scsi_status_of : Pkt → ℕ
scsi_status_of pkt = pkt.scsi_status % 4096

abbrev pub lscsi_of : ℕ → ℕ
lscsi_of scsi_status = bit_and (u8 scsi_status) 0xfe

-- The variables that the lines up to the switch set. `info_failed` is
-- `rsp_info_len > 3 && rsp_info[3]`.
pub record Locals : Type 0 where
  pub fwi2 : Bool
  pub comp_status : ℕ
  pub scsi_status : ℕ
  pub lscsi_status : ℕ
  pub status_flags : ℕ
  pub resid_len : ℕ
  pub fw_resid_len : ℕ
  pub retry_delay : ℕ
  pub info_failed : Bool
  pub sense_data : ℕ → ℕ
  pub sense_len : ℕ
  pub par_sense_len : ℕ

locals_24xx : Pkt → Locals
locals_24xx sts =
    let scsi_status = scsi_status_of sts in
    let info = info_len_valid scsi_status in
    let rsp_info_len = if info then sts.rsp_data_len else 0 in
    let bytes = fcp_swap sts.data_24xx in
    record {
      fwi2 = true;
      comp_status =
          if sts.comp_status == cs_complete && residual_over scsi_status
          then cs_data_overrun
          else sts.comp_status;
      scsi_status = scsi_status;
      lscsi_status = lscsi_of scsi_status;
      status_flags = sts.status_flags;
      resid_len =
          if residual_under scsi_status || residual_over scsi_status
          then sts.rsp_residual_count
          else 0;
      fw_resid_len = if sts.comp_status == cs_data_underrun then sts.residual_len else 0;
      retry_delay =
          if ltb 0 sts.retry_delay && ltb sts.retry_delay 0xfff1 then sts.retry_delay else 0;
      info_failed = info && (ltb 3 rsp_info_len && not (bytes 3 == 0));
      sense_data = if info then (λ j. bytes (rsp_info_len + j)) else bytes;
      sense_len = if sense_len_valid scsi_status then sts.sense_len else 0;
      par_sense_len = if info then u32 (28 + 4294967296 - rsp_info_len) else 28;
    }

locals_2x00 : Pkt → Locals
locals_2x00 sts =
    let scsi_status = scsi_status_of sts in
    let info = info_len_valid scsi_status in
    record {
      fwi2 = false;
      comp_status = sts.comp_status;
      scsi_status = scsi_status;
      lscsi_status = lscsi_of scsi_status;
      status_flags = sts.status_flags;
      resid_len = sts.residual_length;
      fw_resid_len = 0;
      retry_delay = 0;
      info_failed = info && (ltb 3 sts.rsp_info_len && not (sts.rsp_info 3 == 0));
      sense_data = sts.req_sense_data;
      sense_len = if sense_len_valid scsi_status then sts.req_sense_length else 0;
      par_sense_len = 32;
    }

unfoldable pub locals : Bool → Pkt → Locals
unfolding locals_24xx locals_2x00
locals fwi2_capable pkt = if fwi2_capable then locals_24xx pkt else locals_2x00 pkt

-- What the switch decides: the result, the residual to set, whether the sense buffer is cleared
-- and whether sense data is copied, whether the port is marked lost, and whether the result is left
-- to the DIF handler.
pub record Outcome : Type 0 where
  pub res : ℕ
  pub set_resid : Option ℕ
  pub clear_sense : Bool
  pub copy_sense : Bool
  pub lost : Bool
  pub dif : Bool

abbrev plain : ℕ → Outcome
plain res = record {
  res = res;
  set_resid = none;
  clear_sense = false;
  copy_sense = false;
  lost = false;
  dif = false;
}

-- Sense data is looked at only with a check condition, which is not "task set full".
with_sense : Locals → ℕ → Option ℕ → Outcome
with_sense l res resid =
    let check = l.lscsi_status == 2 in
    record {
      res = res;
      set_resid = resid;
      clear_sense = check;
      copy_sense = check && sense_len_valid l.scsi_status;
      lost = false;
      dif = false;
    }

-- `!lscsi_status && (unsigned)(scsi_bufflen(cp) - resid) < cp->underflow`
abbrev pub underflows : Locals → ScsiCmnd → ℕ → Bool
underflows l cp resid =
    l.lscsi_status == 0 && ltb (u32 (cp.bufflen + 4294967296 - resid)) cp.underflow

-- CS_COMPLETE and CS_QUEUE_FULL. `DID_OK << 16 | lscsi_status` is the SCSI status.
complete_outcome : Locals → ScsiCmnd → Outcome
unfolding with_sense
complete_outcome l cp =
    let resid =
      if residual_under l.scsi_status || residual_over l.scsi_status
      then some l.resid_len
      else none in
    if l.scsi_status == 0
    then plain did_ok
    else if (residual_under l.scsi_status || residual_over l.scsi_status)
        && underflows l cp l.resid_len
    then record (plain did_error) { set_resid = resid }
    else with_sense l l.lscsi_status resid

-- CS_DATA_UNDERRUN. The result `DID_ERROR << 16 | lscsi_status` has no bit in common.
underrun_outcome : Locals → ScsiCmnd → Outcome
unfolding with_sense
underrun_outcome l cp =
    let resid = if l.fwi2 then l.fw_resid_len else l.resid_len in
    if residual_under l.scsi_status
    then (if l.fwi2 && not (l.fw_resid_len == l.resid_len)
        then with_sense l (did_error + l.lscsi_status) (some resid)
        else if underflows l cp resid
        then record (plain did_error) { set_resid = some resid }
        else with_sense l l.lscsi_status (some resid))
    else if not (l.lscsi_status == task_set_full) && not (l.lscsi_status == sam_busy)
    then with_sense l (did_error + l.lscsi_status) (some resid)
    else with_sense l l.lscsi_status (some resid)

-- CS_PORT_LOGGED_OUT, CS_PORT_CONFIG_CHG, CS_PORT_BUSY, CS_INCOMPLETE, CS_PORT_UNAVAILABLE,
-- CS_TIMEOUT and CS_RESET. SF_LOGOUT_SENT is bit 13.
abbrev pub is_disrupted : ℕ → Bool
is_disrupted cs =
    cs == 0x29
    || (cs == 0x2A || (cs == 0x2B || (cs == 0x1 || (cs == 0x28 || (cs == 0x6 || cs == 0x4)))))

disrupted_outcome : Locals → Outcome
disrupted_outcome l =
    let spared = l.comp_status == cs_timeout && (l.fwi2 || not (has l.status_flags 0x2000)) in
    record (plain did_transport_disrupted) { lost = not spared }

-- CS_ABORTED is 5, CS_DIF_ERROR 0xC; CS_TRANSPORT (3) has the result of the default case.
unfoldable pub outcome : Locals → ScsiCmnd → Outcome
unfolding complete_outcome underrun_outcome disrupted_outcome
outcome l cp =
    if l.info_failed
    then plain did_bus_busy
    else if l.comp_status == cs_complete || l.comp_status == cs_queue_full
    then complete_outcome l cp
    else if l.comp_status == cs_data_underrun
    then underrun_outcome l cp
    else if is_disrupted l.comp_status
    then disrupted_outcome l
    else if l.comp_status == 0x5
    then plain did_reset
    else record (plain did_error) { dif = l.comp_status == 0xC }
