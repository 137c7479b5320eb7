-- ===== src/Template/Sound.antt =====
-- Templates whose entries lie inside them, and the memory in which such a template is walked over
-- (Template/Layout).
use scst_qla2xxx.Base.{
  ℕ, zero, suc, ◌+◌, ◌*◌, ◌<◌, ◌≤◌, ◌≡◌, refl, ap, ◌∙◌, ◌⊎◌, inl, inr, Bool, false, List, [], ◌∷◌,
  arith, ltb, bit_or, if◌then◌else◌, Bool-cases,
}
use mathlib.Core.Path.{ap₂, fun_ext}
use scst_qla2xxx.Base.Lists.{length}
use scst_qla2xxx.Base.Words.{u32}
use scst_qla2xxx.Base.Mem.{update}
use scst_qla2xxx.Response.Sense.{copy_bytes}
use scst_qla2xxx.Template.{le_byte}
use scst_qla2xxx.Template.Entry.{Entry}
use scst_qla2xxx.Template.Calls.{Call, t275, find_entry, terminates}
use scst_qla2xxx.Template.Layout.{
  le32, put_le32, entry_offset, template_size, entry_count, header_size, entry_span, entry_of,
  type_at, size_at, call_at, span_at, view, entry_at, stored, put_entry,
}

-- Each of the `count` entries from `p` on, up to the one that ends the walk, is as long as a handler
-- may access it, and lies before `size`.
abbrev pub EntriesInside : (ℕ → ℕ) → (size count p : ℕ) → Type 0
EntriesInside tmp size zero p = Unit
EntriesInside tmp size (suc count) p =
    (span_at tmp p ≤ size_at tmp p)
    × (p + size_at tmp p ≤ size)
    × (terminates (call_at tmp p) ≡ false → EntriesInside tmp size count (p + size_at tmp p))

-- The entries lie behind the header and inside the template.
pub record IsSound (tmp : ℕ → ℕ) : Type 0 where
  pub behind : header_size ≤ entry_offset tmp
  pub has_header : header_size ≤ template_size tmp
  pub entries : EntriesInside tmp (template_size tmp) (entry_count tmp) (entry_offset tmp)

-- The memory from `p` on, before `size`.
abbrev pub Agree : (tmp m : ℕ → ℕ) → (p size : ℕ) → Type 0
Agree tmp m p size = (j : ℕ) → p ≤ j → j < size → m j ≡ tmp j

copied_word :
    (m : ℕ → ℕ) (at : ℕ) (src : ℕ → ℕ) (j : ℕ)
    → (j < at) ⊎ (at + 4 ≤ j)
    → copy_bytes m at src 4 j ≡ m j
unfolding copy_bytes
copied_word m at src j h = ground arith

pub put_le32-frame :
    (m : ℕ → ℕ) (at : ℕ) (ws : List ℕ) (j : ℕ)
    → (j < at) ⊎ (at + 4 * length ws ≤ j)
    → put_le32 m at ws j ≡ m j
unfolding put_le32
put_le32-frame m at [] j h = refl
put_le32-frame m at (w ∷ ws) j h =
    put_le32-frame (copy_bytes m at (le_byte (u32 w)) 4) (at + 4) ws j (ground arith)
    ∙ copied_word m at (le_byte (u32 w)) j (ground arith)

-- Handlers store into the member of the union of their type.
abbrev StoredInside : Call → Entry → ℕ → Type 0
StoredInside call ent size =
    (16 ≤ (stored call ent).0)
    × ((stored call ent).0 + 4 * length (stored call ent).1 ≤ entry_span call size)

stored-StoredInside : (call : Call) (ent : Entry) (size : ℕ) → StoredInside call ent size
unfolding stored entry_span
stored-StoredInside t275 ent size = (omega arith, ground arith)
stored-StoredInside _ ent size = (omega arith, omega arith)

flag_frame :
    (b : Bool) (m : ℕ → ℕ) (at v j : ℕ)
    → (j < at) ⊎ (at < j)
    → (if b then update m at v else m) j ≡ m j
flag_frame b m at v j h = ground arith

pub put_entry-frame :
    (call : Call) (m : ℕ → ℕ) (p size : ℕ) (ent : Entry) (j : ℕ)
    → (j < p + 15) ⊎ (p + entry_span call size ≤ j)
    → put_entry call m p ent j ≡ m j
unfolding put_entry
put_entry-frame call m p size ent j h =
    let (at, room) = stored-StoredInside call ent size in
    put_le32-frame (if ent.skip_entry then update m (p + 15) (bit_or (m (p + 15)) 128) else m)
      (p + (stored call ent).0) (stored call ent).1 j (ground arith)
    ∙ flag_frame ent.skip_entry m (p + 15) (bit_or (m (p + 15)) 128) j (ground arith)

pub entry_span-lower : (call : Call) (size : ℕ) → 16 ≤ entry_span call size
unfolding entry_span
entry_span-lower t275 size = ground arith
entry_span-lower _ size = omega arith

pub le32_agrees :
    (tmp m : ℕ → ℕ) (p size q : ℕ)
    → Agree tmp m p size
    → p ≤ q
    → q + 4 ≤ size
    → le32 m q ≡ le32 tmp q
le32_agrees tmp m p size q a le lt =
    rw
      (
        a q le (omega arith),
        a (q + 1) (omega arith) (omega arith),
        a (q + 2) (omega arith) (omega arith),
        a (q + 3) (omega arith) (omega arith),
      )
      refl

view_agrees :
    (tmp m : ℕ → ℕ) (p size n : ℕ) → Agree tmp m p size → p + n ≤ size → view m p n ≡ view tmp p n
unfolding view
view_agrees tmp m p size n a room = fun_ext (λ j. elim (Bool-cases (ltb j n)) [
  | inl e ↦ rw e (a (p + j) (omega arith) (ground arith))
  | inr e ↦ rw e refl
])

-- The entry is read as it is in the template.
pub record SameEntry (tmp m : ℕ → ℕ) (p : ℕ) : Type 0 where
  pub same_size : size_at m p ≡ size_at tmp p
  pub same_call : call_at m p ≡ call_at tmp p
  pub same_entry : entry_at m p ≡ entry_at tmp p

pub Agree-SameEntry :
    (tmp m : ℕ → ℕ) (p size : ℕ) → Agree tmp m p size → p + span_at tmp p ≤ size → SameEntry tmp m p
unfolding entry_at call_at span_at
Agree-SameEntry tmp m p size a room =
    let long = entry_span-lower (call_at tmp p) (size_at tmp p) in
    let types : type_at m p ≡ type_at tmp p =
      le32_agrees tmp m p size p a (omega arith) (omega (arith, long)) in
    let sizes : size_at m p ≡ size_at tmp p =
      le32_agrees tmp m p size (p + 4) a (omega arith) (omega (arith, long)) in
    let calls : call_at m p ≡ call_at tmp p = ap find_entry types in
    let spans : span_at m p ≡ span_at tmp p = ap₂ entry_span calls sizes in
    let views : view m p (span_at m p) ≡ view tmp p (span_at tmp p) =
      ap (view m p) spans ∙ view_agrees tmp m p size (span_at tmp p) a room in
    record {
      same_size = sizes;
      same_call = calls;
      same_entry =
          ap (λ c. entry_of c (type_at m p) (size_at m p) (view m p (span_at m p))) calls
          ∙ ap (λ t. entry_of (call_at tmp p) t (size_at m p) (view m p (span_at m p))) types
          ∙ ap₂ (entry_of (call_at tmp p) (type_at tmp p)) sizes views;
    }
