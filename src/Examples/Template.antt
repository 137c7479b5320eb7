-- ===== src/Examples/Template.antt =====
-- The theorems about dumps at a small template.
use scst_qla2xxx.Base.{
  ℕ, zero, suc, ◌*◌, ◌/◌, ◌%◌, ◌≡◌, ◌≤◌, refl, true, none, some, List, [], ◌∷◌, arith, ◌==◌,
  if◌then◌else◌,
}
use scst_qla2xxx.Response.Sense.{copy_bytes}
use scst_qla2xxx.Template.{Device, Hw, Dump, read_window, le_byte}
use scst_qla2xxx.Template.Registers.{entry_t256}
use scst_qla2xxx.Template.Queues.{entry_t263}
use scst_qla2xxx.Template.Areas.{ram_range, fill, entry_t262}
use scst_qla2xxx.Template.Calls.{t262, call_list, find_entry}
use scst_qla2xxx.Template.Layout.{le32, call_at, span_at, entry_at}
use scst_qla2xxx.Template.Sound.{IsSound}
use scst_qla2xxx.Template.Adds.{StaysInside}
use scst_qla2xxx.Template.Walk.{
  Versions, template_valid, dump_template, execute_fwdt_template, fwdt_calculate_dump_size, walk,
}
use scst_qla2xxx.Template.Bounds.{execute_fwdt_template-bounds, execute_fwdt_template-frame}
use scst_qla2xxx.Template.Find.{lookup, find_entry-lookup}

-- A chip whose state counts the writes.
abbrev device : Device ℕ
device = record {
  write_reg = λ c offset v. suc c;
  read_reg = λ c w offset. (c, offset);
  read_config = λ c addr. (c, addr);
  pause_risc = λ c. c;
  soft_reset = λ c. 0;
  dump_ram = λ c start dwords at m. (c, copy_bytes m at (λ j. 7) (dwords * 4));
  dump_mpi_ram = λ c start dwords at m. (c, copy_bytes m at (λ j. 9) (dwords * 4));
}

-- One of two request queues is there.
abbrev hw : Hw
hw = record {
  max_req_queues = 2;
  max_rsp_queues = 0;
  req_q_map =
      λ i. if i == 0 then some (record { length = 3; ring = λ j. j; shadow = none }) else none;
  rsp_q_map = λ i. none;
  fw_memory_size = 0;
  fw_shared_ram_start = 0;
  fw_shared_ram_end = 0;
  fce = none;
  fce_wr = 0;
  fce_dma = 0;
  fce_mb = λ i. 0;
  eft = none;
  eft_dma = 0;
}

abbrev zeros : ℕ → List ℕ → List ℕ
zeros zero ws = ws
zeros (suc n) ws = 0 ∷ zeros n ws

abbrev word_of : List ℕ → ℕ → ℕ
word_of [] i = 0
word_of (w ∷ ws) zero = w
word_of (w ∷ ws) (suc i) = word_of ws i

-- The header with a checksum, and behind it registers, memory, queues, and the end.
abbrev words : List ℕ
words =
    99
    ∷ 164
    ∷ 256
    ∷ 0
    ∷ 9
    ∷ 0
    ∷ 0
    ∷ 1073715039
    ∷ zeros 33 (
        256 ∷ 24 ∷ 0 ∷ 0 ∷ 0x6000 ∷ 0xc0000204 ∷ 262 ∷ 28 ∷ 0 ∷ 0 ∷ 1 ∷ 16 ∷ 18 ∷ 263 ∷ 24 ∷ 0 ∷ 0
        ∷ 0 ∷ 1 ∷ 255 ∷ 16 ∷ 0 ∷ 0 ∷ [])

abbrev template : ℕ → ℕ
template j = le_byte (word_of words (j / 4)) (j % 4)

abbrev versions : Versions
versions = record {
  jiffies = 1000;
  v = λ i. i;
  fw_major_version = 7;
  fw_minor_version = 3;
  fw_subminor_version = 1;
  fw_attributes = 0;
  fw_attributes_h = 0;
  fw_attributes_ext = λ i. 0;
}

valid : template_valid template ≡ true
unfolding template_valid
valid = refl

device-StaysInside : StaysInside device
unfolding copy_bytes
device-StaysInside = record {
  ram = λ start dwords c at m j h. ground arith;
  mpi_ram = λ start dwords c at m j h. ground arith;
}

sound : IsSound template
unfolding call_at span_at find_entry
sound = record {
  behind = omega arith;
  has_header = omega arith;
  entries = (
    omega arith,
    omega arith,
    λ e1. (
      omega arith,
      omega arith,
      λ e2.
          (omega arith, omega arith, λ e3. (omega arith, omega arith, λ e4. absurd (ground arith))),
    ),
  );
}

-- 256 + 16 + 12, 196 for the queue and 131076 for the one that might come.
sized : fwdt_calculate_dump_size device hw template 1 ≡ 131556
unfolding fwdt_calculate_dump_size template_valid walk entry_at call_at find_entry entry_t263
    entry_t262 ram_range fill entry_t256 read_window
sized = refl

-- The end of the range of memory was stored into the copy of the entry, and both areas are in the dump.
abbrev dump : Dump ℕ
unfolding dump_template
dump = dump_template device versions hw template (λ j. 0) 0

dumped : (le32 dump.mem 212 ≡ 18) × (le32 dump.mem 204 ≡ 1) × (le32 dump.mem 276 ≡ 0x07070707)
unfolding dump_template walk entry_at call_at find_entry entry_t263 entry_t262 ram_range fill
    entry_t256 read_window
dumped = (refl, refl, refl)

execute_fwdt_template-bounds_example :
    (execute_fwdt_template device versions hw template (λ j. 0) 0
      ≡ some (dump_template device versions hw template (λ j. 0) 0))
    × (256 ≤ (dump_template device versions hw template (λ j. 0) 0).len)
    × ((dump_template device versions hw template (λ j. 0) 0).len
        ≤ fwdt_calculate_dump_size device hw template 1)
execute_fwdt_template-bounds_example =
    execute_fwdt_template-bounds device device-StaysInside versions hw template (λ j. 0) 0 1 valid
      sound

execute_fwdt_template-frame_example :
    (dump_template device versions hw template (λ j. 0) 0).mem 131556 ≡ 0
execute_fwdt_template-frame_example =
    execute_fwdt_template-frame device device-StaysInside versions hw template (λ j. 0) 0 1 131556
      valid sound (omega (arith, sized))

-- Two entries of which only one is inside: the walk that makes the dump takes the other one from
-- the registers that it has just dumped.
abbrev unsound : ℕ → ℕ
unsound j =
    le_byte
      (word_of
        (99
          ∷ 164
          ∷ 188
          ∷ 0
          ∷ 2
          ∷ 0
          ∷ 0
          ∷ 4294965278
          ∷ zeros 33 (256 ∷ 24 ∷ 0 ∷ 0 ∷ 256 ∷ 0x404 ∷ []))
        (j / 4))
      (j % 4)

abbrev echo : Device ℕ
echo = record device { read_reg = λ c w offset. (c, 0x204) }

valid_unsound : template_valid unsound ≡ true
unfolding template_valid
valid_unsound = refl

overruns :
    (fwdt_calculate_dump_size echo hw unsound 0 ≡ 220)
    × ((dump_template echo versions hw unsound (λ j. 0) 0).len ≡ 236)
unfolding dump_template fwdt_calculate_dump_size template_valid walk entry_at call_at find_entry
    entry_t256 read_window
overruns = (refl, refl)

find_entry-lookup_example : find_entry 262 ≡ lookup call_list 262
find_entry-lookup_example = find_entry-lookup 262

found_262 : lookup call_list 262 ≡ t262
unfolding lookup call_list
found_262 = refl
