-- ===== src/Request/Blocks/Pieces.antt =====
-- One piece of a protection interval (Request/Blocks).
use scst_qla2xxx.Base.{
  ℕ, suc, ◌+◌, ◌-◌, ◌≤◌, ◌<◌, ◌≡◌, refl, inl, inr, Bool, true, false, List, [], ◌∷◌, ◌++◌, ◌==◌,
  leb, arith, Bool-cases,
}
use scst_qla2xxx.Base.Lists.{length}
use scst_qla2xxx.Base.Span.{span}
use scst_qla2xxx.Base.Words.{u32}
use scst_qla2xxx.Request.Segments.{Sg}
use scst_qla2xxx.Request.Blocks.{Sgx, Got, piece, take_piece, move_on, piece_of}
use scst_qla2xxx.Request.Blocks.Bytes.{
  run, bytes, total, AllFilled, run_add, left, left_zero, Inside, Inside-zero,
}

-- With `k` intervals to come, of which the first has begun.
pub record Ready (blk k : ℕ) (s : Sgx) (xs : List Sg) : Type 0 where
  pub filled : AllFilled xs
  pub inside : Inside s.bytes_consumed xs
  pub begun : s.tot_partial < blk
  pub count : s.tot_partial + total xs ≡ s.bytes_consumed + span blk k
  pub sum : s.num_bytes + span blk k ≡ s.tot_bytes
  pub fits : total xs ≤ s.tot_bytes
  pub small : s.tot_bytes < 4294967296

-- One piece.
pub record Stepped (blk k : ℕ) (s : Sgx) (xs : List Sg) (g : Got) : Type 0 where
  pub after : Sgx
  pub partial : Bool
  pub to_come : ℕ
  pub is : g ≡ piece after partial
  pub ready : Ready blk to_come after after.cur_sg
  pub fewer : to_come + length after.cur_sg < k + length xs
  pub cut :
      left s.bytes_consumed xs
      ≡ run after.dma_addr after.dma_len ++ left after.bytes_consumed after.cur_sg
  pub bounded : after.dma_len ≤ blk
  pub some_bytes : 0 < after.dma_len

take_piece-full :
    (blk : ℕ) (s : Sgx) (sg : Sg)
    → s.bytes_consumed < sg.dma_len
    → s.tot_partial + sg.dma_len < 4294967296 + s.bytes_consumed
    → sg.dma_len < 4294967296
    → s.tot_partial < blk
    → s.num_bytes + blk < 4294967296
    → blk + s.bytes_consumed ≤ s.tot_partial + sg.dma_len
    → take_piece blk s sg ≡ (
      record s {
        dma_addr = sg.dma_address + s.bytes_consumed;
        dma_len = blk - s.tot_partial;
        tot_partial = 0;
        num_bytes = s.num_bytes + blk;
      },
      false,
    )
unfolding take_piece
take_piece-full blk s sg lt small len part sum full =
    let rest : u32 (sg.dma_len + 4294967296 - s.bytes_consumed) ≡ sg.dma_len - s.bytes_consumed =
      ground arith in
    let all : u32 (s.tot_partial + (sg.dma_len - s.bytes_consumed))
        ≡ s.tot_partial + (sg.dma_len - s.bytes_consumed) =
      ground arith in
    let cut : u32 (blk + 4294967296 - s.tot_partial) ≡ blk - s.tot_partial = ground arith in
    let num : u32 (s.num_bytes + blk) ≡ s.num_bytes + blk = ground arith in
    let test : leb blk (s.tot_partial + (sg.dma_len - s.bytes_consumed)) ≡ true = ground arith in
    rw (rest, all, test, cut, num) refl

take_piece-part :
    (blk : ℕ) (s : Sgx) (sg : Sg)
    → s.bytes_consumed < sg.dma_len
    → s.tot_partial + sg.dma_len < 4294967296 + s.bytes_consumed
    → sg.dma_len < 4294967296
    → s.tot_partial + sg.dma_len < blk + s.bytes_consumed
    → take_piece blk s sg ≡ (
      record s {
        dma_addr = sg.dma_address + s.bytes_consumed;
        dma_len = sg.dma_len - s.bytes_consumed;
        tot_partial = s.tot_partial + (sg.dma_len - s.bytes_consumed);
      },
      true,
    )
unfolding take_piece
take_piece-part blk s sg lt small len part =
    let rest : u32 (sg.dma_len + 4294967296 - s.bytes_consumed) ≡ sg.dma_len - s.bytes_consumed =
      ground arith in
    let all : u32 (s.tot_partial + (sg.dma_len - s.bytes_consumed))
        ≡ s.tot_partial + (sg.dma_len - s.bytes_consumed) =
      ground arith in
    let test : leb blk (s.tot_partial + (sg.dma_len - s.bytes_consumed)) ≡ false = ground arith in
    rw (rest, all, test) refl

move_on-end :
    (s : Sgx) (sg : Sg) (sgs : List Sg)
    → sg.dma_len < 4294967296
    → s.bytes_consumed + s.dma_len ≡ sg.dma_len
    → move_on s sg sgs ≡ record s { cur_sg = sgs; bytes_consumed = 0 }
unfolding move_on
move_on-end s sg sgs small e =
    let test : (sg.dma_len == u32 (s.bytes_consumed + s.dma_len)) ≡ true = ground arith in
    rw test refl

move_on-stay :
    (s : Sgx) (sg : Sg) (sgs : List Sg)
    → sg.dma_len < 4294967296
    → s.bytes_consumed + s.dma_len < sg.dma_len
    → move_on s sg sgs
      ≡ record s { cur_sg = sg ∷ sgs; bytes_consumed = s.bytes_consumed + s.dma_len }
unfolding move_on
move_on-stay s sg sgs small lt =
    let all : u32 (s.bytes_consumed + s.dma_len) ≡ s.bytes_consumed + s.dma_len = ground arith in
    let test : (sg.dma_len == s.bytes_consumed + s.dma_len) ≡ false = ground arith in
    rw (all, test) refl

-- An interval ends inside an element.
step-stay :
    (blk k : ℕ) (s : Sgx) (sg : Sg) (sgs : List Sg)
    → Ready blk (suc k) s (sg ∷ sgs)
    → blk + s.bytes_consumed < s.tot_partial + sg.dma_len
    → Stepped blk (suc k) s (sg ∷ sgs) (piece_of blk s (sg ∷ sgs))
unfolding piece_of total span
step-stay blk k s sg sgs r lt =
    let c = s.bytes_consumed in
    let p = blk - s.tot_partial in
    let len = sg.dma_len in
    let taken : Sgx = record s {
      dma_addr = sg.dma_address + c;
      dma_len = p;
      tot_partial = 0;
      num_bytes = s.num_bytes + blk;
    } in
    let inside : c + p < len = omega (arith, lt, r.begun) in
    let small : len < 4294967296 = omega (arith, r.fits, r.small) in
    let e1 =
      take_piece-full blk s sg r.inside (omega (arith, r.count, r.sum, r.small)) small r.begun
        (omega (arith, r.sum, r.small)) (omega (arith, lt)) in
    let e2 = move_on-stay taken sg sgs small inside in
    let rest : len - c ≡ p + (len - (c + p)) = omega (arith, inside) in
    let at : sg.dma_address + (c + p) ≡ (sg.dma_address + c) + p = omega arith in
    record {
      after = record taken { cur_sg = sg ∷ sgs; bytes_consumed = c + p };
      partial = false;
      to_come = k;
      is = rw (e1, e2) refl;
      ready = record {
        filled = r.filled;
        inside = inside;
        begun = omega (arith, r.begun);
        count = omega (arith, r.count, r.begun);
        sum = omega (arith, r.sum);
        fits = r.fits;
        small = r.small;
      };
      fewer = omega arith;
      cut = rw (rest, at) (run_add (sg.dma_address + c) p (len - (c + p)) (bytes sgs));
      bounded = omega arith;
      some_bytes = omega (arith, r.begun);
    }

-- An interval ends with an element.
step-end :
    (blk k : ℕ) (s : Sgx) (sg : Sg) (sgs : List Sg)
    → Ready blk (suc k) s (sg ∷ sgs)
    → blk + s.bytes_consumed ≡ s.tot_partial + sg.dma_len
    → Stepped blk (suc k) s (sg ∷ sgs) (piece_of blk s (sg ∷ sgs))
unfolding piece_of total span AllFilled
step-end blk k s sg sgs r e =
    let c = s.bytes_consumed in
    let p = blk - s.tot_partial in
    let len = sg.dma_len in
    let taken : Sgx = record s {
      dma_addr = sg.dma_address + c;
      dma_len = p;
      tot_partial = 0;
      num_bytes = s.num_bytes + blk;
    } in
    let small : len < 4294967296 = omega (arith, r.fits, r.small) in
    let used : c + p ≡ len = omega (arith, e, r.begun) in
    let e1 =
      take_piece-full blk s sg r.inside (omega (arith, r.count, r.sum, r.small)) small r.begun
        (omega (arith, r.sum, r.small)) (omega (arith, e)) in
    let e2 = move_on-end taken sg sgs small used in
    let rest : len - c ≡ p = omega (arith, used) in
    record {
      after = record taken { cur_sg = sgs; bytes_consumed = 0 };
      partial = false;
      to_come = k;
      is = rw (e1, e2) refl;
      ready = record {
        filled = r.filled.1;
        inside = Inside-zero sgs r.filled.1;
        begun = omega (arith, r.begun);
        count = omega (arith, r.count, e);
        sum = omega (arith, r.sum);
        fits = omega (arith, r.fits);
        small = r.small;
      };
      fewer = omega arith;
      cut = rw (rest, left_zero sgs) refl;
      bounded = omega arith;
      some_bytes = omega (arith, r.begun);
    }

-- An element ends inside an interval.
step-part :
    (blk k : ℕ) (s : Sgx) (sg : Sg) (sgs : List Sg)
    → Ready blk (suc k) s (sg ∷ sgs)
    → s.tot_partial + sg.dma_len < blk + s.bytes_consumed
    → Stepped blk (suc k) s (sg ∷ sgs) (piece_of blk s (sg ∷ sgs))
unfolding piece_of total span AllFilled
step-part blk k s sg sgs r lt =
    let c = s.bytes_consumed in
    let len = sg.dma_len in
    let taken : Sgx = record s {
      dma_addr = sg.dma_address + c;
      dma_len = len - c;
      tot_partial = s.tot_partial + (len - c);
    } in
    let small : len < 4294967296 = omega (arith, r.fits, r.small) in
    let e1 = take_piece-part blk s sg r.inside (omega (arith, r.count, r.sum, r.small)) small lt in
    let e2 = move_on-end taken sg sgs small (omega (arith, r.inside)) in
    record {
      after = record taken { cur_sg = sgs; bytes_consumed = 0 };
      partial = true;
      to_come = suc k;
      is = rw (e1, e2) refl;
      ready = record {
        filled = r.filled.1;
        inside = Inside-zero sgs r.filled.1;
        begun = omega (arith, lt, r.inside);
        count = omega (arith, r.count, r.inside);
        sum = r.sum;
        fits = omega (arith, r.fits);
        small = r.small;
      };
      fewer = omega arith;
      cut = rw (left_zero sgs) refl;
      bounded = omega (arith, lt, r.inside);
      some_bytes = omega (arith, r.inside);
    }

pub piece_of-Stepped :
    (blk k : ℕ) (s : Sgx) (xs : List Sg)
    → Ready blk (suc k) s xs
    → Stepped blk (suc k) s xs (piece_of blk s xs)
unfolding total span
piece_of-Stepped blk k s [] r = absurd (omega (arith, r.count, r.inside, r.begun))
piece_of-Stepped blk k s (sg ∷ sgs) r =
    elim (Bool-cases (leb (blk + s.bytes_consumed) (s.tot_partial + sg.dma_len))) [
      | inr part ↦ step-part blk k s sg sgs r (ground arith)
      | inl full ↦ elim (Bool-cases (blk + s.bytes_consumed == s.tot_partial + sg.dma_len)) [
        | inl at_end ↦ step-end blk k s sg sgs r (ground arith)
        | inr before ↦ step-stay blk k s sg sgs r (ground arith)
      ]
    ]

pub Ready-left :
    (blk : ℕ) (s : Sgx) (xs : List Sg) → Ready blk 0 s xs → left s.bytes_consumed xs ≡ []
unfolding total span
Ready-left blk s [] r = refl
Ready-left blk s (sg ∷ sgs) r = absurd (omega (arith, r.count, r.inside))
