-- ===== src/Template/Bounds.antt =====
-- The copy of a template in the buffer, and the length of a dump beside the length that is calculated
-- for it (Template/Walk).
use scst_qla2xxx.Base.{
  ℕ, ◌+◌, ◌<◌, ◌≤◌, ◌≡◌, refl, ◌∙◌, ◌⊎◌, inl, inr, true, false, some, arith, [], ◌∷◌, List,
}
use scst_qla2xxx.Base.Lists.{length}
use scst_qla2xxx.Response.Sense.{copy_bytes}
use scst_qla2xxx.Template.{Device, Hw}
use scst_qla2xxx.Template.Layout.{
  put_le32, le32, header_size, entry_offset, template_size, entry_count,
}
use scst_qla2xxx.Template.Sound.{IsSound, put_le32-frame, le32_agrees}
use scst_qla2xxx.Template.Adds.{StaysInside}
use scst_qla2xxx.Template.Walk.{
  Versions, edit_template, driver_info, firmware_version, template_valid, start_dump, dump_template,
  execute_fwdt_template, fwdt_calculate_dump_size,
}
use scst_qla2xxx.Template.Grow.{total, total-le, Grown, Ready, walk-Grown}

-- The three ranges that the edits store to.
stored_fields :
    (m : ℕ → ℕ) (a b c : List ℕ) (j : ℕ)
    → length a ≡ 1
    → length b ≡ 3
    → length c ≡ 5
    → (j < 24) ⊎ (header_size ≤ j)
    → put_le32 (put_le32 (put_le32 m 24 a) 36 b) 144 c j ≡ m j
stored_fields m a b c j one three five h =
    put_le32-frame (put_le32 (put_le32 m 24 a) 36 b) 144 c j (ground arith)
    ∙ put_le32-frame (put_le32 m 24 a) 36 b j (ground arith)
    ∙ put_le32-frame m 24 a j (ground arith)

edit_template-frame :
    (vs : Versions) (m : ℕ → ℕ) (j : ℕ) → (j < 24) ⊎ (header_size ≤ j) → edit_template vs m j ≡ m j
unfolding edit_template
edit_template-frame vs m j h =
    stored_fields m (vs.jiffies ∷ []) (driver_info vs) (firmware_version vs) j refl refl refl h

copied_in : (m src : ℕ → ℕ) (n j : ℕ) → j < n → copy_bytes m 0 src n j ≡ src j
unfolding copy_bytes
copied_in m src n j lt = ground arith

copied_behind : (m src : ℕ → ℕ) (n j : ℕ) → n ≤ j → copy_bytes m 0 src n j ≡ m j
unfolding copy_bytes
copied_behind m src n j le = ground arith

module _ {D : Type 0} (dev : Device D) (inside : StaysInside dev) where
  -- Behind the edited fields, the copy is the template.
  started_in :
      (vs : Versions) (tmp fw_dump : ℕ → ℕ) (chip : D) (j : ℕ)
      → (j < 24) ⊎ (header_size ≤ j)
      → j < template_size tmp
      → (start_dump dev vs tmp fw_dump chip).mem j ≡ tmp j
  unfolding start_dump
  started_in vs tmp fw_dump chip j h lt =
      edit_template-frame vs (copy_bytes fw_dump 0 tmp (template_size tmp)) j h
      ∙ copied_in fw_dump tmp (template_size tmp) j lt

  started_behind :
      (vs : Versions) (tmp fw_dump : ℕ → ℕ) (chip : D) (j : ℕ)
      → header_size ≤ j
      → template_size tmp ≤ j
      → (start_dump dev vs tmp fw_dump chip).mem j ≡ fw_dump j
  unfolding start_dump
  started_behind vs tmp fw_dump chip j h le =
      edit_template-frame vs (copy_bytes fw_dump 0 tmp (template_size tmp)) j (inr h)
      ∙ copied_behind fw_dump tmp (template_size tmp) j le

  started_len :
      (vs : Versions) (tmp fw_dump : ℕ → ℕ) (chip : D)
      → (start_dump dev vs tmp fw_dump chip).len ≡ template_size tmp
  unfolding start_dump
  started_len vs tmp fw_dump chip = refl

  started-Ready :
      (vs : Versions) (tmp fw_dump : ℕ → ℕ) (chip : D)
      → IsSound tmp
      → Ready tmp (template_size tmp) (entry_offset tmp) (start_dump dev vs tmp fw_dump chip)
  started-Ready vs tmp fw_dump chip sound = record {
    agree = λ j le lt. started_in vs tmp fw_dump chip j (inr (omega (arith, sound.behind))) lt;
    behind = omega (arith, started_len vs tmp fw_dump chip);
  }

  -- The header's count and offset are read from the copy.
  started_word :
      (vs : Versions) (tmp fw_dump : ℕ → ℕ) (chip : D) (q : ℕ)
      → IsSound tmp
      → q + 4 ≤ 24
      → le32 (start_dump dev vs tmp fw_dump chip).mem q ≡ le32 tmp q
  started_word vs tmp fw_dump chip q sound le =
      le32_agrees tmp _ 0 24 q
        (λ j h lt. started_in vs tmp fw_dump chip j (inl lt) (omega (arith, sound.has_header)))
        (omega arith) le

  dumped-Grown :
      (vs : Versions) (hw : Hw) (tmp fw_dump : ℕ → ℕ) (chip : D)
      → IsSound tmp
      → Grown
          (total true hw tmp (entry_count tmp) (entry_offset tmp))
          (start_dump dev vs tmp fw_dump chip)
          (dump_template dev vs hw tmp fw_dump chip)
  unfolding dump_template
  dumped-Grown vs hw tmp fw_dump chip sound =
      let d = start_dump dev vs tmp fw_dump chip in
      rw
        (
          started_word vs tmp fw_dump chip 4 sound (omega arith),
          started_word vs tmp fw_dump chip 16 sound (omega arith),
        )
        (walk-Grown dev inside true hw tmp (template_size tmp) (entry_count tmp) (entry_offset tmp)
          d (started-Ready vs tmp fw_dump chip sound) sound.entries)

  calculated :
      (hw : Hw) (tmp : ℕ → ℕ) (chip : D)
      → template_valid tmp ≡ true
      → IsSound tmp
      → fwdt_calculate_dump_size dev hw tmp chip
        ≡ template_size tmp + total false hw tmp (entry_count tmp) (entry_offset tmp)
  unfolding fwdt_calculate_dump_size
  calculated hw tmp chip e sound =
      rw e
        (walk-Grown dev inside false hw tmp (template_size tmp) (entry_count tmp) (entry_offset tmp)
          (record { mem = tmp; len = template_size tmp; chip = chip })
          (record { agree = λ j le lt. refl; behind = omega arith }) sound.entries).grows

  executed :
      (vs : Versions) (hw : Hw) (tmp fw_dump : ℕ → ℕ) (chip : D)
      → template_valid tmp ≡ true
      → execute_fwdt_template dev vs hw tmp fw_dump chip
        ≡ some (dump_template dev vs hw tmp fw_dump chip)
  unfolding execute_fwdt_template
  executed vs hw tmp fw_dump chip e = rw e refl

  -- For a valid template whose entries lie behind the header and inside the template, each as
  -- long as the handler of its type may access, and for RAM dumps of the chip that store only
  -- into their area, a dump is made, and its length is at least the size of the template and at
  -- most the size that qla27xx_fwdt_calculate_dump_size gives for the same queues and traces,
  -- whatever the state of the chip at either time.
  pub execute_fwdt_template-bounds :
      (vs : Versions) (hw : Hw) (tmp fw_dump : ℕ → ℕ) (chip chip' : D)
      → template_valid tmp ≡ true
      → IsSound tmp
      → (execute_fwdt_template dev vs hw tmp fw_dump chip
          ≡ some (dump_template dev vs hw tmp fw_dump chip))
        × (template_size tmp ≤ (dump_template dev vs hw tmp fw_dump chip).len)
        × ((dump_template dev vs hw tmp fw_dump chip).len
            ≤ fwdt_calculate_dump_size dev hw tmp chip')
  execute_fwdt_template-bounds vs hw tmp fw_dump chip chip' e sound =
      let grown = (dumped-Grown vs hw tmp fw_dump chip sound).grows in
      let start = started_len vs tmp fw_dump chip in
      (
        executed vs hw tmp fw_dump chip e,
        omega (arith, grown, start),
        omega (
          arith,
          grown,
          start,
          calculated hw tmp chip' e sound,
          total-le hw tmp (entry_count tmp) (entry_offset tmp),
        ),
      )

  -- For a valid template whose entries lie behind the header and inside the template, each as
  -- long as the handler of its type may access, and for RAM dumps of the chip that store only
  -- into their area, the dump that is made, in place over the copy of the template, changes no
  -- byte of the buffer at or beyond the size that qla27xx_fwdt_calculate_dump_size gives for the
  -- same queues and traces, whatever the state of the chip at either time.
  pub execute_fwdt_template-frame :
      (vs : Versions) (hw : Hw) (tmp fw_dump : ℕ → ℕ) (chip chip' : D) (j : ℕ)
      → template_valid tmp ≡ true
      → IsSound tmp
      → fwdt_calculate_dump_size dev hw tmp chip' ≤ j
      → (dump_template dev vs hw tmp fw_dump chip).mem j ≡ fw_dump j
  execute_fwdt_template-frame vs hw tmp fw_dump chip chip' j e sound le =
      let size = calculated hw tmp chip' e sound in
      let least = total-le hw tmp (entry_count tmp) (entry_offset tmp) in
      let start = started_len vs tmp fw_dump chip in
      (dumped-Grown vs hw tmp fw_dump chip sound).beyond j (omega (arith, le, size, least, start))
      ∙ started_behind vs tmp fw_dump chip j (omega (arith, le, size, sound.has_header))
          (omega (arith, le, size))
