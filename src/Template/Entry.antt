-- ===== src/Template/Entry.antt =====
-- An entry of a template, `struct qla27xx_fwdt_entry` of drivers/scsi/qla2xxx/qla_tmpl.h, and its flag.
use scst_qla2xxx.Base.{ℕ, Bool, true, if◌then◌else◌}

-- `struct qla27xx_fwdt_entry`. The members of the union that carry one name are one field here; an
-- entry uses those of its own type. `skip_entry` is DRIVER_FLAG_SKIP_ENTRY of `driver_flags`.
pub record Entry : Type 0 where
  pub entry_type : ℕ
  pub entry_size : ℕ
  pub skip_entry : Bool
  pub base_addr : ℕ
  pub reg_width : ℕ
  pub reg_count : ℕ
  pub pci_offset : ℕ
  pub banksel_offset : ℕ
  pub bank : ℕ
  pub write_data : ℕ
  pub ram_area : ℕ
  pub start_addr : ℕ
  pub end_addr : ℕ
  pub num_queues : ℕ
  pub queue_type : ℕ
  pub fce_trace_size : ℕ
  pub write_pointer : ℕ
  pub base_pointer : ℕ
  pub fce_enable_mb : ℕ → ℕ
  pub buf_type : ℕ
  pub buf_size : ℕ
  pub scratch_size : ℕ
  pub addr : ℕ
  pub data_of : ℕ
  pub count : ℕ
  pub length : ℕ
  pub buffer : ℕ → ℕ

unfoldable pub skip : Bool → Entry → Entry
skip buf ent = if buf then record ent { skip_entry = true } else ent

-- FCE_SIZE and EFT_SIZE of qla_dbg.h, and REQUEST_ENTRY_CNT_24XX and RESPONSE_ENTRY_CNT_MQ.
abbrev pub fce_size : ℕ
fce_size = 65536

abbrev pub eft_size : ℕ
eft_size = 65536

abbrev pub request_entry_cnt_24xx : ℕ
request_entry_cnt_24xx = 2048

abbrev pub response_entry_cnt_mq : ℕ
response_entry_cnt_mq = 128
