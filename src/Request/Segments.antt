-- ===== src/Request/Segments.antt =====
-- The loop under "Load data segments" of qla2x00_build_scsi_iocbs_32, qla2x00_build_scsi_iocbs_64
-- and qla24xx_build_scsi_iocbs (drivers/scsi/qla2xxx/qla_iocb.c), which differ in the shape of a
-- descriptor and of a continuation entry; and what the chip reads back.
pub mod Count
pub mod Frame
pub mod Outside
pub mod ReadBack
use scst_qla2xxx.Base.{ℕ, zero, suc, ◌+◌, ◌-◌, ◌*◌, Bool, List, [], ◌∷◌, map, ◌==◌, if◌then◌else◌}
use scst_qla2xxx.Base.Words.{lsd, msd, u32}
use scst_qla2xxx.Request.Queue.{Ring, ReqQue}
use scst_qla2xxx.Request.Ring.{
  prep_cont_type0_iocb, prep_cont_type1_iocb, put_words, get_words, advance,
}

-- A mapped element of the scatter list: sg_dma_address and sg_dma_len.
pub record Sg : Type 0 where
  pub dma_address : ℕ
  pub dma_len : ℕ

-- Continuation type 0 (32-bit addresses), or type 1 with IS_QLAFX00.
pub data Cont : Type 0 where
  type0 : Cont
  type1 : Bool → Cont

-- The first word of the descriptors in a continuation entry, and how many there are.
abbrev pub cont_word : Cont → ℕ
cont_word type0 = 2
cont_word (type1 _) = 1

abbrev pub cont_dsds : Cont → ℕ
cont_dsds type0 = 7
cont_dsds (type1 _) = 5

abbrev pub dsd_size : Cont → ℕ
dsd_size type0 = 2
dsd_size (type1 _) = 3

-- What `*cur_dsd++ = ...` stores for one element.
unfoldable pub dsd_words : Cont → Sg → List ℕ
dsd_words type0 sg = u32 sg.dma_address ∷ u32 sg.dma_len ∷ []
dsd_words (type1 _) sg = lsd sg.dma_address ∷ msd sg.dma_address ∷ u32 sg.dma_len ∷ []

pub prep_cont : Cont → ReqQue → ReqQue
prep_cont type0 req = prep_cont_type0_iocb req
prep_cont (type1 is_qlafx00) req = prep_cont_type1_iocb is_qlafx00 req

-- The variables of the loop: the queue (the current entry is at its `ring_ptr`), the word that
-- `cur_dsd` points to, and `avail_dsds`.
pub record Cursor : Type 0 where
  pub req : ReqQue
  pub word : ℕ
  pub avail_dsds : ℕ

-- "Allocate additional continuation packets?"
unfoldable pub more_room : Cont → Cursor → Cursor
unfolding prep_cont
more_room c s =
    if s.avail_dsds == 0
    then record { req = prep_cont c s.req; word = cont_word c; avail_dsds = cont_dsds c }
    else s

unfoldable pub put_dsd : Cont → Cursor → Sg → Cursor
put_dsd c s sg =
    let req = s.req in
    record {
      req = record req { ring = put_words req.ring req.ring_ptr s.word (dsd_words c sg) };
      word = s.word + dsd_size c;
      avail_dsds = s.avail_dsds - 1;
    }

unfoldable pub load_segments : Cont → Cursor → List Sg → ReqQue
load_segments c s [] = s.req
load_segments c s (sg ∷ sgs) = load_segments c (put_dsd c (more_room c s) sg) sgs

-- How many continuation entries `n` more descriptors take when `avail` fit in the current one.
unfoldable pub conts : Cont → ℕ → ℕ → ℕ
conts c avail zero = 0
conts c zero (suc n) = suc (conts c (cont_dsds c - 1) n)
conts c (suc avail) (suc n) = conts c avail n

-- What the chip does with a command of `n` descriptors: from the word `w` of the entry `e`, it
-- reads the `avail` that fit there, and goes on in the next entry of the ring.
unfoldable pub read_segments : Cont → Ring → ℕ → ℕ → ℕ → ℕ → ℕ → List (List ℕ)
read_segments c m len e w avail zero = []
read_segments c m len e w zero (suc n) =
    let e' = advance len e 1 in
    get_words m e' (cont_word c) (dsd_size c)
    ∷ read_segments c m len e' (cont_word c + dsd_size c) (cont_dsds c - 1) n
read_segments c m len e w (suc avail) (suc n) =
    get_words m e w (dsd_size c) ∷ read_segments c m len e (w + dsd_size c) avail n

-- The element that a descriptor's words stand for.
unfoldable pub dsd_value : Cont → List ℕ → Sg
dsd_value type0 (a ∷ n ∷ []) = record { dma_address = a; dma_len = n }
dsd_value (type1 _) (lo ∷ hi ∷ n ∷ []) = record { dma_address = lo + 4294967296 * hi; dma_len = n }
dsd_value _ _ = record { dma_address = 0; dma_len = 0 }

unfoldable pub fw_segments : Cont → Ring → ℕ → ℕ → ℕ → ℕ → ℕ → List Sg
fw_segments c m len e w avail n = map (dsd_value c) (read_segments c m len e w avail n)
