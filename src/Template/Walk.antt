-- ===== src/Template/Walk.antt =====
-- The walk over a template, and the two functions that make it: qla27xx_walk_template,
-- qla27xx_execute_fwdt_template and qla27xx_fwdt_calculate_dump_size of
-- drivers/scsi/qla2xxx/qla_tmpl.c. A template is its bytes.
use scst_qla2xxx.Base.{
  ℕ, zero, suc, ◌+◌, ◌-◌, ◌*◌, ◌/◌, ◌%◌, Bool, true, false, Option, none, some, List, [], ◌∷◌, ◌&&◌,
  ◌==◌, if◌then◌else◌,
}
use scst_qla2xxx.Base.Words.{u8, u32}
use scst_qla2xxx.Response.Sense.{copy_bytes}
use scst_qla2xxx.Template.{Device, Hw, Dump}
use scst_qla2xxx.Template.Entry.{Entry, skip}
use scst_qla2xxx.Template.Calls.{
  Call, t0, t255, t256, t257, t258, t259, t260, t261, t262, t263, t264, t265, t266, t267, t268,
  t269, t270, t271, t272, t273, t274, t275, other, terminates,
}
use scst_qla2xxx.Template.Layout.{
  le32, put_le32, template_type, entry_offset, template_size, entry_count, call_at, size_at,
  entry_at, put_entry,
}
use scst_qla2xxx.Template.Registers.{
  entry_t256, entry_t257, entry_t258, entry_t259, entry_t260, entry_t261, entry_t265, entry_t266,
  entry_t267, entry_t269, entry_t270, entry_t271, entry_t273,
}
use scst_qla2xxx.Template.Queues.{entry_t263, entry_t274}
use scst_qla2xxx.Template.Areas.{entry_t262, entry_t264, entry_t268, entry_t272, entry_t275}

-- What the edits of the header copy: `jiffies`, the numbers of the driver's version, and the
-- versions and attributes of the firmware.
pub record Versions : Type 0 where
  pub jiffies : ℕ
  pub v : ℕ → ℕ
  pub fw_major_version : ℕ
  pub fw_minor_version : ℕ
  pub fw_subminor_version : ℕ
  pub fw_attributes : ℕ
  pub fw_attributes_h : ℕ
  pub fw_attributes_ext : ℕ → ℕ

-- The words that qla27xx_driver_info and qla27xx_firmware_info store.
abbrev pub driver_info : Versions → List ℕ
driver_info vs =
    (u8 (vs.v 3) * 16777216 + u8 (vs.v 2) * 65536 + u8 (vs.v 1) * 256 + u8 (vs.v 0))
    ∷ (u8 (vs.v 5) * 256 + u8 (vs.v 4))
    ∷ 0x12345678
    ∷ []

abbrev pub firmware_version : Versions → List ℕ
firmware_version vs =
    vs.fw_major_version
    ∷ vs.fw_minor_version
    ∷ vs.fw_subminor_version
    ∷ (vs.fw_attributes_h * 65536 + vs.fw_attributes)
    ∷ (vs.fw_attributes_ext 1 * 65536 + vs.fw_attributes_ext 0)
    ∷ []

-- ql27xx_edit_template: `capture_timestamp`, `driver_info` and `firmware_version` of the header.
unfoldable pub edit_template : Versions → (ℕ → ℕ) → ℕ → ℕ
unfolding put_le32
edit_template vs tmp =
    put_le32 (put_le32 (put_le32 tmp 24 (vs.jiffies ∷ [])) 36 (driver_info vs)) 144
      (firmware_version vs)

-- `while (size--) sum += *buf++`, with 64 bits; `p` is where `buf` points to.
unfoldable pub sum_words : (ℕ → ℕ) → (size p sum : ℕ) → ℕ
sum_words tmp zero p sum = sum
sum_words tmp (suc size) p sum =
    sum_words tmp size (p + 4) ((sum + le32 tmp p) % 18446744073709551616)

-- qla27xx_template_checksum: the sum, folded once, and complemented in 32 bits.
unfoldable pub template_checksum : (ℕ → ℕ) → ℕ → ℕ
unfolding sum_words
template_checksum tmp size =
    let sum = sum_words tmp (size / 4) 0 0 in 4294967295 - u32 (sum % 4294967296 + sum / 4294967296)

-- qla27xx_fwdt_template_valid; TEMPLATE_TYPE_FWDUMP is 99.
unfoldable pub template_valid : (ℕ → ℕ) → Bool
unfolding template_checksum
template_valid tmp = (template_type tmp == 99) && (template_checksum tmp (template_size tmp) == 0)

module _ {D : Type 0} (dev : Device D) where
  -- The call through the pointer.
  unfoldable pub call_entry : Call → Bool → Hw → Entry → Dump D → Entry × Dump D
  call_entry t0 buf hw ent d = (skip buf ent, d)
  call_entry t255 buf hw ent d = (skip buf ent, d)
  call_entry t256 buf hw ent d = entry_t256 dev buf ent d
  call_entry t257 buf hw ent d = entry_t257 dev buf ent d
  call_entry t258 buf hw ent d = entry_t258 dev buf ent d
  call_entry t259 buf hw ent d = entry_t259 dev buf ent d
  call_entry t260 buf hw ent d = entry_t260 dev buf ent d
  call_entry t261 buf hw ent d = entry_t261 dev buf ent d
  call_entry t262 buf hw ent d = entry_t262 dev buf hw ent d
  call_entry t263 buf hw ent d = entry_t263 buf hw ent d
  call_entry t264 buf hw ent d = entry_t264 dev buf hw ent d
  call_entry t265 buf hw ent d = entry_t265 dev buf ent d
  call_entry t266 buf hw ent d = entry_t266 dev buf ent d
  call_entry t267 buf hw ent d = entry_t267 dev buf ent d
  call_entry t268 buf hw ent d = entry_t268 dev buf hw ent d
  call_entry t269 buf hw ent d = entry_t269 dev buf ent d
  call_entry t270 buf hw ent d = entry_t270 dev buf ent d
  call_entry t271 buf hw ent d = entry_t271 dev buf ent d
  call_entry t272 buf hw ent d = entry_t272 dev buf ent d
  call_entry t273 buf hw ent d = entry_t273 dev buf ent d
  call_entry t274 buf hw ent d = entry_t274 buf hw ent d
  call_entry t275 buf hw ent d = entry_t275 dev buf ent d
  call_entry other buf hw ent d = (skip buf ent, d)

  -- What a handler stores into its entry is in the memory after what it inserts into the dump.
  unfoldable pub stored_back : Bool → Call → ℕ → Entry × Dump D → Dump D
  unfolding put_entry
  stored_back buf call p (ent, d) = if buf then record d { mem = put_entry call d.mem p ent } else d

  -- `while (count--)`: `count` entries are left, of which the next is at `p` of the memory. With a
  -- buffer, this is the dump, to whose start the template was copied; without one, the template.
  unfoldable pub walk : Bool → Hw → (count p : ℕ) → Dump D → Dump D
  unfolding call_entry call_at entry_at stored_back
  walk buf hw zero p d = d
  walk buf hw (suc count) p d =
      let call = call_at d.mem p in
      let d' = stored_back buf call p (call_entry call buf hw (entry_at d.mem p) d) in
      elim (terminates call) [ true ↦ d' | false ↦ walk buf hw count (p + size_at d'.mem p) d' ]

  -- The template is copied to the start of the buffer and edited there.
  unfoldable pub start_dump : Versions → (tmp fw_dump : ℕ → ℕ) → D → Dump D
  unfolding edit_template copy_bytes
  start_dump vs tmp fw_dump chip = record {
    mem = edit_template vs (copy_bytes fw_dump 0 tmp (template_size tmp));
    len = template_size tmp;
    chip = chip;
  }

  unfoldable pub dump_template : Versions → Hw → (tmp fw_dump : ℕ → ℕ) → D → Dump D
  unfolding start_dump walk
  dump_template vs hw tmp fw_dump chip =
      let d = start_dump vs tmp fw_dump chip in
      walk true hw (entry_count d.mem) (entry_offset d.mem) d

  -- With a valid template; the dump's length is `fw_dump_len`.
  unfoldable pub execute_fwdt_template : Versions → Hw → (tmp fw_dump : ℕ → ℕ) → D → Option (Dump D)
  unfolding dump_template
  execute_fwdt_template vs hw tmp fw_dump chip =
      if template_valid tmp then some (dump_template vs hw tmp fw_dump chip) else none

  -- The walk without a buffer.
  unfoldable pub fwdt_calculate_dump_size : Hw → (tmp : ℕ → ℕ) → D → ℕ
  unfolding walk
  fwdt_calculate_dump_size hw tmp chip =
      if template_valid tmp
      then (walk false hw (entry_count tmp) (entry_offset tmp)
          (record { mem = tmp; len = template_size tmp; chip = chip })).len
      else 0
