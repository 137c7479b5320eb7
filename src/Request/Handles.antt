-- ===== src/Request/Handles.antt =====
-- The search for a free slot of `outstanding_cmds`, the loop under "Check for room in outstanding
-- command list" that qla2x00_start_scsi, qla24xx_start_scsi and qla2x00_alloc_iocbs
-- (drivers/scsi/qla2xxx/qla_iocb.c) share.
use scst_qla2xxx.Base.{
  ℕ, zero, suc, ◌+◌, ◌-◌, ◌<◌, ◌≤◌, ◌≡◌, ◌⊎◌, inl, inr, Option, none, some, arith, ◌==◌,
  if◌then◌else◌, Option-cases,
}
use scst_qla2xxx.Base.Words.{u32}
use scst_qla2xxx.Request.Queue.{ReqQue}

-- `handle++; if (handle == num) handle = 1;`
unfoldable pub next_handle : ℕ → ℕ → ℕ
next_handle num handle = let h = u32 (handle + 1) in if h == num then 1 else h

-- The rounds of the loop that are left. `none` is the exit with index == num.
find_from : ℕ → (ℕ → Option ℕ) → ℕ → ℕ → Option ℕ
find_from num cmds zero handle = none
find_from num cmds (suc rounds) handle =
    let h = next_handle num handle in
    let rest = find_from num cmds rounds h in elim (cmds h) [ none ↦ some h | some _ ↦ rest ]

-- With no slot at all the loop does not run, and the test after it, 1 == 0, fails.
unfoldable pub find_handle : ReqQue → Option ℕ
unfolding find_from next_handle
find_handle req =
    if num_outstanding_cmds == 0
    then some current_outstanding_cmd
    else find_from num_outstanding_cmds outstanding_cmds (num_outstanding_cmds - 1)
        current_outstanding_cmd
  where
    open req use {num_outstanding_cmds, outstanding_cmds, current_outstanding_cmd}

module _ (num : ℕ) (cmds : ℕ → Option ℕ) (small : num < 65536) where
  next_handle_range :
      (handle : ℕ)
      → handle < num
      → 1 < num
      → (0 < next_handle num handle) × (next_handle num handle < num)
  unfolding next_handle
  next_handle_range handle h p = ground arith

  find_from-free :
      (rounds handle : ℕ) {h : ℕ}
      → handle < num
      → rounds < num
      → find_from num cmds rounds handle ≡ some h
      → (0 < h) × (h < num) × (cmds h ≡ none)
  unfolding find_from
  find_from-free zero handle lt r e = ground arith
  find_from-free (suc rounds) handle lt r e = elim (Option-cases (cmds (next_handle num handle))) [
    | inl free ↦ ground (arith, next_handle_range handle lt (omega arith))
    | inr (a, used) ↦
        find_from-free rounds (next_handle num handle) (next_handle_range handle lt (omega arith)).1
          (omega arith) (ground arith)
  ]

  -- A handle that the rounds left will visit.
  abbrev Ahead : ℕ → ℕ → ℕ → Type 0
  Ahead rounds handle j =
      ((handle < j) × (j ≤ handle + rounds)) ⊎ ((j ≤ handle) × (j + (num - 1) ≤ handle + rounds))

  Ahead-next :
      (rounds handle j : ℕ)
      → handle < num
      → 0 < j
      → j < num
      → Ahead (suc rounds) handle j
      → (j ≡ next_handle num handle) ⊎ Ahead rounds (next_handle num handle) j
  unfolding next_handle
  Ahead-next rounds handle j lt pos jn a = ground arith

  find_from-none :
      (rounds handle j : ℕ)
      → handle < num
      → 0 < j
      → j < num
      → Ahead rounds handle j
      → find_from num cmds rounds handle ≡ none
      → (sp : ℕ) × (cmds j ≡ some sp)
  unfolding find_from
  find_from-none zero handle j lt pos jn a e = absurd (omega arith)
  find_from-none (suc rounds) handle j lt pos jn a e =
      elim (Option-cases (cmds (next_handle num handle))) [
        | inl free ↦ ground arith
        | inr (sp, used) ↦ elim (Ahead-next rounds handle j lt pos jn a) [
          | inl here ↦ (sp, ground arith)
          | inr later ↦
              find_from-none rounds (next_handle num handle) j
                (next_handle_range handle lt (omega arith)).1 pos jn later (ground arith)
        ]
      ]

-- The array holds at least one slot, and the cursor is inside it.
pub record HasSlots (req : ReqQue) : Type 0 where
  pub slots : 1 < req.num_outstanding_cmds
  pub word : req.num_outstanding_cmds < 65536
  pub cursor : req.current_outstanding_cmd < req.num_outstanding_cmds

-- With at least one slot and the cursor inside the array, a handle that the search finds names a
-- free slot of the array other than slot 0.
pub find_handle-free :
    (req : ReqQue) {h : ℕ}
    → HasSlots req
    → find_handle req ≡ some h
    → (0 < h) × (h < req.num_outstanding_cmds) × (req.outstanding_cmds h ≡ none)
unfolding find_handle
find_handle-free req v e =
    find_from-free req.num_outstanding_cmds req.outstanding_cmds v.word
      (req.num_outstanding_cmds - 1) req.current_outstanding_cmd v.cursor (omega arith)
      (ground arith)

-- With at least one slot and the cursor inside the array, the search for a handle fails only if
-- every slot from 1 on is in use.
pub find_handle-none :
    (req : ReqQue) (j : ℕ)
    → HasSlots req
    → find_handle req ≡ none
    → 0 < j
    → j < req.num_outstanding_cmds
    → (sp : ℕ) × (req.outstanding_cmds j ≡ some sp)
unfolding find_handle
find_handle-none req j v e pos jn =
    find_from-none req.num_outstanding_cmds req.outstanding_cmds v.word
      (req.num_outstanding_cmds - 1) req.current_outstanding_cmd j v.cursor pos jn (omega arith)
      (ground arith)
