-- ===== src/Request/Blocks/Cover.antt =====
-- The pieces cover the scatter list, in its order (Request/Blocks).
use scst_qla2xxx.Base.{
  ℕ, zero, suc, ◌+◌, ◌*◌, ◌≤◌, ◌<◌, ◌≡◌, ◌∙◌, ap, refl, Bool, false, Option, some, List, [], ◌∷◌,
  ◌++◌, ◌==◌, arith, ==_iff,
}
use scst_qla2xxx.Base.Lists.{length}
use scst_qla2xxx.Base.Span.{span, span-mul}
use scst_qla2xxx.Request.Segments.{Sg}
use scst_qla2xxx.Request.Blocks.{
  Sgx, finished, piece, piece_of, get_one_block_sg, more_pieces, data_pieces, first_sgx,
}
use scst_qla2xxx.Request.Blocks.Bytes.{run, bytes, total, AllFilled, left, left_zero, Inside-zero}
use scst_qla2xxx.Request.Blocks.Pieces.{Ready, piece_of-Stepped, Ready-left}

-- Every piece has bytes, and not more than an interval.
unfoldable pub AllBounded : ℕ → List Sg → Type 0
AllBounded blk [] = Unit
AllBounded blk (p ∷ ps) = (0 < p.dma_len) × (p.dma_len ≤ blk) × AllBounded blk ps

record Covers (blk : ℕ) (target : List ℕ) (o : Option (List Sg)) : Type 0 where
  pieces : List Sg
  ends : o ≡ some pieces
  covers : bytes pieces ≡ target
  bounded : AllBounded blk pieces

one_more :
    (blk : ℕ) (s : Sgx) (partial : Bool) (rest : Sgx → Option (List Sg)) (target : List ℕ)
    → 0 < s.dma_len
    → s.dma_len ≤ blk
    → Covers blk target (rest s)
    → Covers blk (run s.dma_addr s.dma_len ++ target) (more_pieces rest (piece s partial))
unfolding more_pieces bytes AllBounded
one_more blk s partial rest target pos le c =
    let p : Sg = record { dma_address = s.dma_addr; dma_len = s.dma_len } in
    rw (c.ends, more_pieces)
      (record {
        pieces = p ∷ c.pieces;
        ends = refl;
        covers = ap (λ l. run s.dma_addr s.dma_len ++ l) c.covers;
        bounded = (pos, le, c.bounded);
      })

get_one_block_sg-finished :
    (blk : ℕ) (s : Sgx) → s.num_bytes ≡ s.tot_bytes → get_one_block_sg blk s ≡ finished
unfolding get_one_block_sg
get_one_block_sg-finished blk s e = rw ((==_iff s.num_bytes s.tot_bytes).1 e) refl

get_one_block_sg-piece :
    (blk : ℕ) (s : Sgx)
    → s.num_bytes < s.tot_bytes
    → get_one_block_sg blk s ≡ piece_of blk s s.cur_sg
unfolding get_one_block_sg
get_one_block_sg-piece blk s lt =
    let test : (s.num_bytes == s.tot_bytes) ≡ false = ground arith in rw test refl

data_pieces-Covers :
    (blk rounds k : ℕ) (s : Sgx)
    → Ready blk k s s.cur_sg
    → k + length s.cur_sg < rounds
    → Covers blk (left s.bytes_consumed s.cur_sg) (data_pieces blk rounds s)
unfolding data_pieces more_pieces span bytes AllBounded
data_pieces-Covers blk zero k s r lt = absurd (omega arith)
data_pieces-Covers blk (suc rounds) zero s r lt =
    rw (get_one_block_sg-finished blk s (omega (arith, r.sum)), Ready-left blk s s.cur_sg r)
      (record { pieces = []; ends = refl; covers = refl; bounded = tt })
data_pieces-Covers blk (suc rounds) (suc k) s r lt =
    let t = piece_of-Stepped blk k s s.cur_sg r in
    let fewer : t.to_come + length t.after.cur_sg < rounds = omega (arith, t.fewer, lt) in
    let rest = data_pieces-Covers blk rounds t.to_come t.after t.ready fewer in
    rw (get_one_block_sg-piece blk s (omega (arith, r.sum, r.begun)), t.is, t.cut)
      (one_more blk t.after t.partial (λ s'. data_pieces blk rounds s') _ t.some_bytes t.bounded
        rest)

-- For intervals of more than 0 bytes and a scatter list without empty elements, of fewer than 2 ^
-- 32 bytes that make up a whole number of intervals, the loop over qla24xx_get_one_block_sg ends
-- in one round more than there are intervals and elements together, without a fault, and its
-- pieces have the same bytes as the list, in the same order, each piece one byte at least and not
-- more than an interval.
pub data_pieces_lem :
    (blk k : ℕ) (sgs : List Sg)
    → 0 < blk
    → AllFilled sgs
    → total sgs ≡ k * blk
    → total sgs < 4294967296
    → (ps : List Sg) × (data_pieces blk (suc (k + length sgs)) (first_sgx (total sgs) sgs)
        ≡ some ps)
      × (bytes ps ≡ bytes sgs)
      × AllBounded blk ps
unfolding first_sgx
data_pieces_lem blk k sgs pos filled all small =
    let c =
      data_pieces-Covers blk (suc (k + length sgs)) k (first_sgx (total sgs) sgs)
        (record {
          filled = filled;
          inside = Inside-zero sgs filled;
          begun = pos;
          count = omega (arith, all, span-mul blk k);
          sum = omega (arith, all, span-mul blk k);
          fits = omega arith;
          small = small;
        })
        (omega arith) in
    (c.pieces, c.ends, c.covers ∙ left_zero sgs, c.bounded)
