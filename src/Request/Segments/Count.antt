-- ===== src/Request/Segments/Count.antt =====
-- The ring index in the loop of Request/Segments, beside the counts of Request/Calc.
use scst_qla2xxx.Base.{ℕ, zero, suc, ◌+◌, ◌-◌, ◌/◌, ◌<◌, ◌≡◌, refl, Bool, List, [], ◌∷◌, arith}
use native.Mathlib.Nat.{mod-eq_of_lt}
use scst_qla2xxx.Base.Lists.{length}
use scst_qla2xxx.Request.Queue.{ReqQue, adjust_ring_index}
use scst_qla2xxx.Request.Calc.{
  calc_iocbs_32, calc_iocbs_64, calc_iocbs_24xx, calc_iocbs_32_lem, calc_iocbs_64_lem,
  calc_iocbs_24xx_lem,
}
use scst_qla2xxx.Request.Ring.{
  IsRing, put_words, prep_cont_type0_iocb, prep_cont_type1_iocb, advance, adjust_ring_index-IsRing,
  ring_index-adjust, advance-advance,
}
use scst_qla2xxx.Request.Segments.{
  Sg, Cont, type0, type1, Cursor, prep_cont, more_room, put_dsd, load_segments, conts, cont_word,
  cont_dsds, dsd_size, dsd_words,
}

conts_type0 : (avail n : ℕ) → conts type0 avail n ≡ (n + 6 - avail) / 7
unfolding conts
conts_type0 zero zero = omega arith
conts_type0 (suc avail) zero = omega arith
conts_type0 zero (suc n) = omega (arith, conts_type0 6 n)
conts_type0 (suc avail) (suc n) = omega (arith, conts_type0 avail n)

conts_type1 : (b : Bool) (avail n : ℕ) → conts (type1 b) avail n ≡ (n + 4 - avail) / 5
unfolding conts
conts_type1 b zero zero = omega arith
conts_type1 b (suc avail) zero = omega arith
conts_type1 b zero (suc n) = omega (arith, conts_type1 b 4 n)
conts_type1 b (suc avail) (suc n) = omega (arith, conts_type1 b avail n)

-- The command's entry and its continuations are the entries that the driver counts.
pub conts-calc_iocbs_32 : (n : ℕ) → n < 65536 → 1 + conts type0 3 n ≡ calc_iocbs_32 n
conts-calc_iocbs_32 n h = omega (arith, conts_type0 3 n, calc_iocbs_32_lem n h)

pub conts-calc_iocbs_64 : (b : Bool) (n : ℕ) → n < 65536 → 1 + conts (type1 b) 2 n ≡ calc_iocbs_64 n
conts-calc_iocbs_64 b n h = omega (arith, conts_type1 b 2 n, calc_iocbs_64_lem n h)

pub conts-calc_iocbs_24xx :
    (b : Bool) (n : ℕ) → n < 65536 → 1 + conts (type1 b) 1 n ≡ calc_iocbs_24xx n
conts-calc_iocbs_24xx b n h = omega (arith, conts_type1 b 1 n, calc_iocbs_24xx_lem n h)

-- What the loop leaves alone.
pub record Keeps (req req' : ReqQue) : Type 0 where
  pub keeps_length : req'.length ≡ req.length
  pub keeps_cnt : req'.cnt ≡ req.cnt
  pub keeps_id : req'.id ≡ req.id
  pub keeps_in : req'.req_q_in ≡ req.req_q_in
  pub keeps_cmds : req'.outstanding_cmds ≡ req.outstanding_cmds
  pub keeps_cursor : req'.current_outstanding_cmd ≡ req.current_outstanding_cmd
  pub keeps_num : req'.num_outstanding_cmds ≡ req.num_outstanding_cmds

pub Keeps-refl : (req : ReqQue) → Keeps req req
Keeps-refl req = ground arith

pub Keeps-trans : {p q r : ReqQue} → Keeps p q → Keeps q r → Keeps p r
Keeps-trans h k = ground arith

pub adjust_ring_index-Keeps : (req : ReqQue) → Keeps req (adjust_ring_index req)
unfolding adjust_ring_index
adjust_ring_index-Keeps req = ground arith

pub prep_cont-Keeps : (c : Cont) (req : ReqQue) → Keeps req (prep_cont c req)
unfolding prep_cont prep_cont_type0_iocb prep_cont_type1_iocb
prep_cont-Keeps type0 req = ground (arith, adjust_ring_index-Keeps req)
prep_cont-Keeps (type1 b) req = ground (arith, adjust_ring_index-Keeps req)

pub prep_cont-IsRing : (c : Cont) (req : ReqQue) → IsRing req → IsRing (prep_cont c req)
unfolding prep_cont prep_cont_type0_iocb prep_cont_type1_iocb
prep_cont-IsRing type0 req v = ground (arith, adjust_ring_index-IsRing req v)
prep_cont-IsRing (type1 b) req v = ground (arith, adjust_ring_index-IsRing req v)

pub ring_index-prep_cont :
    (c : Cont) (req : ReqQue)
    → IsRing req
    → (prep_cont c req).ring_index ≡ advance req.length req.ring_index 1
unfolding prep_cont prep_cont_type0_iocb prep_cont_type1_iocb
ring_index-prep_cont type0 req v = ring_index-adjust req v
ring_index-prep_cont (type1 b) req v = ring_index-adjust req v

abbrev pub cursor : ReqQue → ℕ → ℕ → Cursor
cursor req w a = record { req = req; word = w; avail_dsds = a }

-- A round with room in the current entry, and one without.
pub round_suc :
    (c : Cont) (req : ReqQue) (w a : ℕ) (sg : Sg)
    → put_dsd c (more_room c (cursor req w (suc a))) sg
      ≡ cursor
          (record req { ring = put_words req.ring req.ring_ptr w (dsd_words c sg) })
          (w + dsd_size c)
          a
unfolding more_room put_dsd
round_suc c req w a sg = ground arith

pub round_zero :
    (c : Cont) (req : ReqQue) (w : ℕ) (sg : Sg)
    → let next = prep_cont c req in
      put_dsd c (more_room c (cursor req w 0)) sg
      ≡ cursor
          (record next { ring = put_words next.ring next.ring_ptr (cont_word c) (dsd_words c sg) })
          (cont_word c + dsd_size c)
          (cont_dsds c - 1)
unfolding more_room put_dsd
round_zero c req w sg = refl

-- One round: the queue is still in step, what it does not touch is kept, and the index has moved by
-- the continuation entry that the round took.
record Moved (c : Cont) (s s' : Cursor) (n : ℕ) : Type 0 where
  ring : IsRing s'.req
  keeps : Keeps s.req s'.req
  steps : ℕ
  index : s'.req.ring_index ≡ advance s.req.length s.req.ring_index steps
  count : conts c s.avail_dsds (suc n) ≡ steps + conts c s'.avail_dsds n

round-Moved :
    (c : Cont) (req : ReqQue) (w a : ℕ) (sg : Sg) (n : ℕ)
    → IsRing req
    → Moved c (cursor req w a) (put_dsd c (more_room c (cursor req w a)) sg) n
unfolding more_room put_dsd conts
round-Moved c req w zero sg n v = record {
  ring = ground (arith, prep_cont-IsRing c req v);
  keeps = ground (arith, prep_cont-Keeps c req);
  steps = 1;
  index = ring_index-prep_cont c req v;
  count = omega arith;
}
round-Moved c req w (suc a) sg n v = record {
  ring = ground arith;
  keeps = ground arith;
  steps = 0;
  index = ground (arith, mod-eq_of_lt v.within);
  count = ground arith;
}

-- The loop keeps the rest of the queue, and moves the index by the continuations of `conts`.
pub record Loaded (c : Cont) (req req' : ReqQue) (a n : ℕ) : Type 0 where
  pub ring : IsRing req'
  pub keeps : Keeps req req'
  pub index : req'.ring_index ≡ advance req.length req.ring_index (conts c a n)

pub load_segments-Loaded :
    (c : Cont) (s : Cursor) (sgs : List Sg)
    → IsRing s.req
    → Loaded c s.req (load_segments c s sgs) s.avail_dsds (length sgs)
unfolding load_segments conts
load_segments-Loaded c s [] v = record {
  ring = v;
  keeps = Keeps-refl s.req;
  index = ground (arith, mod-eq_of_lt v.within);
}
load_segments-Loaded c s (sg ∷ sgs) v =
    let m = round-Moved c s.req s.word s.avail_dsds sg (length sgs) v in
    let s' = put_dsd c (more_room c s) sg in
    let l = load_segments-Loaded c s' sgs m.ring in
    record {
      ring = l.ring;
      keeps = Keeps-trans m.keeps l.keeps;
      index =
          rw (l.index, m.count, m.keeps.keeps_length, m.index)
            (advance-advance s.req.length s.req.ring_index m.steps
              (conts c s'.avail_dsds (length sgs)));
    }
