-- ===== src/Template/Layout.antt =====
-- The layout of a template in memory: `struct qla27xx_fwdt_template` and `struct qla27xx_fwdt_entry` of
-- drivers/scsi/qla2xxx/qla_tmpl.h, both packed, and the stores into them of qla_tmpl.c.
use scst_qla2xxx.Base.{ℕ, ◌+◌, ◌*◌, List, [], ◌∷◌, ltb, ◌==◌, bit_or, if◌then◌else◌}
use scst_qla2xxx.Base.Words.{u32, has, lsd, msd}
use scst_qla2xxx.Base.Mem.{update}
use scst_qla2xxx.Response.Sense.{copy_bytes}
use scst_qla2xxx.Template.{le_byte}
use scst_qla2xxx.Template.Entry.{Entry}
use scst_qla2xxx.Template.Calls.{
  Call, t256, t257, t258, t259, t260, t261, t262, t263, t264, t267, t268, t269, t270, t271, t272,
  t273, t274, t275, find_entry,
}

-- Little-endian numbers of 2, 4 and 8 bytes.
abbrev pub le16 : (ℕ → ℕ) → ℕ → ℕ
le16 m p = m p + 256 * m (p + 1)

abbrev pub le32 : (ℕ → ℕ) → ℕ → ℕ
le32 m p = m p + 256 * m (p + 1) + 65536 * m (p + 2) + 16777216 * m (p + 3)

abbrev pub le64 : (ℕ → ℕ) → ℕ → ℕ
le64 m p = le32 m p + 4294967296 * le32 m (p + 4)

-- Stores of 32-bit words, one behind the other.
unfoldable pub put_le32 : (ℕ → ℕ) → ℕ → List ℕ → ℕ → ℕ
unfolding copy_bytes
put_le32 m at [] = m
put_le32 m at (w ∷ ws) = put_le32 (copy_bytes m at (le_byte (u32 w)) 4) (at + 4) ws

-- The fields of the header, which is 164 bytes long.
abbrev pub template_type : (ℕ → ℕ) → ℕ
template_type tmp = le32 tmp 0

abbrev pub entry_offset : (ℕ → ℕ) → ℕ
entry_offset tmp = le32 tmp 4

abbrev pub template_size : (ℕ → ℕ) → ℕ
template_size tmp = le32 tmp 8

abbrev pub entry_count : (ℕ → ℕ) → ℕ
entry_count tmp = le32 tmp 16

abbrev pub header_size : ℕ
header_size = 164

-- The bytes of an entry that a handler may access: its header and the member of the union, for
-- ENTRY_TYPE_WRITE_BUF with the buffer, which is read only if `entry_size` has room for it.
unfoldable pub entry_span : Call → ℕ → ℕ
entry_span t256 size = 24
entry_span t257 size = 28
entry_span t258 size = 32
entry_span t259 size = 32
entry_span t260 size = 20
entry_span t261 size = 24
entry_span t262 size = 28
entry_span t263 size = 24
entry_span t264 size = 60
entry_span t267 size = 24
entry_span t268 size = 32
entry_span t269 size = 20
entry_span t270 size = 24
entry_span t271 size = 24
entry_span t272 size = 24
entry_span t273 size = 24
entry_span t274 size = 24
entry_span t275 size = if ltb size 20 then 20 else size
entry_span _ size = 16

-- The offsets of fields that differ between the members.
abbrev pub pci_at : Call → ℕ
pci_at t256 = 23
pci_at t257 = 24
pci_at t258 = 23
pci_at t259 = 26
pci_at _ = 16

abbrev pub banksel_at : Call → ℕ
banksel_at t259 = 27
banksel_at _ = 24

abbrev pub start_of : Call → (ℕ → ℕ) → ℕ
start_of t268 v = le64 v 24
start_of _ v = le32 v 20

-- The fields of an entry from its bytes; DRIVER_FLAG_SKIP_ENTRY is bit 7 of the byte 15.
unfoldable pub entry_of : Call → (type_of size : ℕ) → (ℕ → ℕ) → Entry
entry_of call type_of size v = record {
  entry_type = type_of;
  entry_size = size;
  skip_entry = has (v 15) 128;
  base_addr = le32 v 16;
  reg_width = v 20;
  reg_count = le16 v 21;
  pci_offset = v (pci_at call);
  banksel_offset = v (banksel_at call);
  bank = le32 v 28;
  write_data = le32 v 20;
  ram_area = v 16;
  start_addr = start_of call v;
  end_addr = le32 v 24;
  num_queues = le32 v 16;
  queue_type = v 20;
  fce_trace_size = le32 v 16;
  write_pointer = le64 v 20;
  base_pointer = le64 v 28;
  fce_enable_mb = λ i. le32 v (if i == 0 then 36 else 32 + i * 4);
  buf_type = v 16;
  buf_size = le32 v 20;
  scratch_size = le32 v 16;
  addr = le32 v 16;
  data_of = le32 v 20;
  count = le32 v 20;
  length = le32 v 16;
  buffer = λ j. v (20 + j);
}

abbrev pub type_at : (ℕ → ℕ) → ℕ → ℕ
type_at m p = le32 m p

abbrev pub size_at : (ℕ → ℕ) → ℕ → ℕ
size_at m p = le32 m (p + 4)

unfoldable pub call_at : (ℕ → ℕ) → ℕ → Call
call_at m p = find_entry (type_at m p)

unfoldable pub span_at : (ℕ → ℕ) → ℕ → ℕ
unfolding call_at entry_span
span_at m p = entry_span (call_at m p) (size_at m p)

-- The bytes from `p` on, of which as many are seen as the handler may access.
unfoldable pub view : (ℕ → ℕ) → ℕ → ℕ → ℕ → ℕ
view m p n j = if ltb j n then m (p + j) else 0

-- The entry at `p`; fields that its type does not have are 0 where they lie behind it.
unfoldable pub entry_at : (ℕ → ℕ) → ℕ → Entry
unfolding entry_of call_at span_at view
entry_at m p = entry_of (call_at m p) (type_at m p) (size_at m p) (view m p (span_at m p))

-- The words that a handler stores into its entry, and their offset: those of `ent`, as it returns it.
unfoldable pub stored : Call → Entry → ℕ × List ℕ
stored t262 ent = (20, ent.start_addr ∷ ent.end_addr ∷ [])
stored t263 ent = (16, ent.num_queues ∷ [])
stored t264 ent = (
  16,
  ent.fce_trace_size
      ∷ lsd ent.write_pointer
      ∷ msd ent.write_pointer
      ∷ lsd ent.base_pointer
      ∷ msd ent.base_pointer
      ∷ ent.fce_enable_mb 0
      ∷ ent.fce_enable_mb 2
      ∷ ent.fce_enable_mb 3
      ∷ ent.fce_enable_mb 4
      ∷ ent.fce_enable_mb 5
      ∷ ent.fce_enable_mb 6
      ∷ [],
)
stored t268 ent = (20, ent.buf_size ∷ lsd ent.start_addr ∷ msd ent.start_addr ∷ [])
stored t269 ent = (16, ent.scratch_size ∷ [])
stored t274 ent = (16, ent.num_queues ∷ [])
stored _ ent = (16, [])

-- The entry that a handler returns, in memory: `driver_flags |= DRIVER_FLAG_SKIP_ENTRY` and the fields.
unfoldable pub put_entry : Call → (ℕ → ℕ) → ℕ → Entry → ℕ → ℕ
unfolding put_le32 stored
put_entry call m p ent =
    let flagged = if ent.skip_entry then update m (p + 15) (bit_or (m (p + 15)) 128) else m in
    let (at, words) = stored call ent in put_le32 flagged (p + at) words
