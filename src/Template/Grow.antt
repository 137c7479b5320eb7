-- ===== src/Template/Grow.antt =====
-- What the walk over a template adds to the dump (Template/Walk).
use scst_qla2xxx.Base.{
  ℕ, zero, suc, ◌+◌, ◌<◌, ◌≤◌, ◌≡◌, refl, ◌∙◌, ◌⊎◌, ap, inl, inr, Bool, true, false, arith,
  if◌then◌else◌, Bool-cases,
}
use mathlib.Core.Path.{ap₂}
use scst_qla2xxx.Template.{Device, Hw, Dump}
use scst_qla2xxx.Template.Entry.{Entry}
use scst_qla2xxx.Template.Calls.{Call, terminates}
use scst_qla2xxx.Template.Layout.{entry_span, size_at, call_at, span_at, entry_at}
use scst_qla2xxx.Template.Sound.{
  EntriesInside, Agree, Agree-SameEntry, put_entry-frame, entry_span-lower, le32_agrees,
}
use scst_qla2xxx.Template.Adds.{StaysInside}
use scst_qla2xxx.Template.Cost.{cost, cost-le}
use scst_qla2xxx.Template.Handlers.{call_entry-Adds}
use scst_qla2xxx.Template.Walk.{call_entry, stored_back, walk}

-- The bytes that the entries from `p` on add, up to the one that ends the walk.
abbrev pub total : Bool → Hw → (ℕ → ℕ) → (count p : ℕ) → ℕ
total buf hw tmp zero p = 0
total buf hw tmp (suc count) p =
    let rest = total buf hw tmp count (p + size_at tmp p) in
    cost buf hw (entry_at tmp p) (call_at tmp p) + (if terminates (call_at tmp p) then 0 else rest)

pub total-le :
    (hw : Hw) (tmp : ℕ → ℕ) (count p : ℕ) → total true hw tmp count p ≤ total false hw tmp count p
total-le hw tmp zero p = omega arith
total-le hw tmp (suc count) p =
    let one = cost-le hw (entry_at tmp p) (call_at tmp p) in
    elim (Bool-cases (terminates (call_at tmp p))) [
      | inl e ↦ rw e (omega (arith, one))
      | inr e ↦ rw e (omega (arith, one, total-le hw tmp count (p + size_at tmp p)))
    ]

-- The dump is longer by `n` bytes, and nothing behind them has changed.
pub record Grown {D : Type 0} (n : ℕ) (d d' : Dump D) : Type 0 where
  pub grows : d'.len ≡ d.len + n
  pub beyond : (j : ℕ) → d.len + n ≤ j → d'.mem j ≡ d.mem j

-- One entry, in a memory that agrees with the template: so it does behind the entry.
record Stepped {D : Type 0} (tmp : ℕ → ℕ) (size p n : ℕ) (d d' : Dump D) : Type 0 where
  grown : Grown n d d'
  agree : Agree tmp d'.mem (p + size_at tmp p) size
  same_size : size_at d'.mem p ≡ size_at tmp p

-- What a walk needs of the memory.
pub record Ready {D : Type 0} (tmp : ℕ → ℕ) (size p : ℕ) (d : Dump D) : Type 0 where
  pub agree : Agree tmp d.mem p size
  pub behind : size ≤ d.len

module _ {D : Type 0} (dev : Device D) (inside : StaysInside dev) where
  stored_back_mem :
      (buf : Bool) (call : Call) (p size : ℕ) (r : Entry × Dump D) (j : ℕ)
      → (j < p + 15) ⊎ (p + entry_span call size ≤ j)
      → ((stored_back dev buf call p r).mem j ≡ r.1.mem j)
        × ((stored_back dev buf call p r).len ≡ r.1.len)
  unfolding stored_back
  stored_back_mem true call p size (ent, d) j h = (put_entry-frame call d.mem p size ent j h, refl)
  stored_back_mem false call p size (ent, d) j h = (refl, refl)

  step :
      (buf : Bool) (hw : Hw) (tmp : ℕ → ℕ) (size p : ℕ) (d : Dump D)
      → Ready tmp size p d
      → span_at tmp p ≤ size_at tmp p
      → p + size_at tmp p ≤ size
      → Stepped tmp size p (cost buf hw (entry_at tmp p) (call_at tmp p)) d (
          stored_back dev buf
            (call_at tmp p)
            p
            (call_entry dev (call_at tmp p) buf hw (entry_at tmp p) d))
  unfolding span_at
  step buf hw tmp size p d r long room =
      let call = call_at tmp p in
      let called = call_entry dev call buf hw (entry_at tmp p) d in
      let adds = call_entry-Adds dev inside call buf hw (entry_at tmp p) d in
      let n = cost buf hw (entry_at tmp p) call in
      let low = entry_span-lower call (size_at tmp p) in
      let back = stored_back_mem buf call p (size_at tmp p) called in
      record {
        grown = record {
          grows = (back p (inl (omega arith))).1 ∙ adds.grows;
          beyond = λ j le.
              (back j (inr (omega (arith, long, room, r.behind)))).0 ∙ adds.frame j (inr le);
        };
        agree = λ j le lt.
            (back j (inr (omega (arith, long, le)))).0
            ∙ adds.frame j (inl (omega (arith, r.behind)))
            ∙ r.agree j (omega arith) lt;
        same_size =
            le32_agrees tmp _ p (p + 8) (p + 4)
              (λ j le lt.
                (back j (inl (omega arith))).0
                ∙ adds.frame j (inl (omega (arith, r.behind, room, long, low)))
                ∙ r.agree j le (omega (arith, room, long, low)))
              (omega arith) (omega arith);
      }

  -- The dump after the entry that is read as `ent`.
  abbrev entered : Bool → Hw → ℕ → Dump D → Call → Entry → Dump D
  entered buf hw p d call ent = stored_back dev buf call p (call_entry dev call buf hw ent d)

  walk_last :
      (buf : Bool) (hw : Hw) (count p : ℕ) (d : Dump D)
      → terminates (call_at d.mem p) ≡ true
      → walk dev buf hw (suc count) p d ≡ entered buf hw p d (call_at d.mem p) (entry_at d.mem p)
  unfolding walk
  walk_last buf hw count p d e = rw (e, walk) refl

  walk_more :
      (buf : Bool) (hw : Hw) (count p : ℕ) (d : Dump D)
      → terminates (call_at d.mem p) ≡ false
      → let d' = entered buf hw p d (call_at d.mem p) (entry_at d.mem p) in
        walk dev buf hw (suc count) p d ≡ walk dev buf hw count (p + size_at d'.mem p) d'
  unfolding walk
  walk_more buf hw count p d e = rw (e, walk) refl

  walk_none : (buf : Bool) (hw : Hw) (p : ℕ) (d : Dump D) → walk dev buf hw zero p d ≡ d
  unfolding walk
  walk_none buf hw p d = refl

  pub walk-Grown :
      (buf : Bool) (hw : Hw) (tmp : ℕ → ℕ) (size count p : ℕ) (d : Dump D)
      → Ready tmp size p d
      → EntriesInside tmp size count p
      → Grown (total buf hw tmp count p) d (walk dev buf hw count p d)
  walk-Grown buf hw tmp size zero p d r e =
      rw (walk_none buf hw p d) (record { grows = omega arith; beyond = λ j le. refl })
  walk-Grown buf hw tmp size (suc count) p d r (long, room, later) =
      let same = Agree-SameEntry tmp d.mem p size r.agree (omega (arith, long, room)) in
      let s = step buf hw tmp size p d r long room in
      let d' = entered buf hw p d (call_at tmp p) (entry_at tmp p) in
      let read = ap₂ (entered buf hw p d) same.same_call same.same_entry in
      elim (Bool-cases (terminates (call_at tmp p))) [
        | inl e ↦
            let last = walk_last buf hw count p d (ap terminates same.same_call ∙ e) ∙ read in
            rw (last, e)
              (record {
                grows = omega (arith, s.grown.grows);
                beyond = λ j le. s.grown.beyond j (omega arith);
              })
        | inr e ↦
            let next = p + size_at tmp p in
            let ready : Ready tmp size next d' = record {
              agree = s.agree;
              behind = omega (arith, r.behind, s.grown.grows);
            } in
            let g = walk-Grown buf hw tmp size count next d' ready (later e) in
            let more =
              walk_more buf hw count p d (ap terminates same.same_call ∙ e)
              ∙ ap (λ x. walk dev buf hw count (p + size_at x.mem p) x) read
              ∙ ap (λ n. walk dev buf hw count (p + n) d') s.same_size in
            rw (more, e)
              (record {
                grows = omega (arith, s.grown.grows, g.grows);
                beyond = λ j le.
                    g.beyond j (omega (arith, s.grown.grows)) ∙ s.grown.beyond j (omega arith);
              })
      ]
