-- ===== src/Request/Blocks.antt =====
-- A scatter list cut into protection intervals: qla24xx_get_one_block_sg and the loop of
-- qla24xx_walk_and_build_sglist_no_difb (drivers/scsi/qla2xxx/qla_iocb.c) over the pieces of data.
pub mod Bytes
pub mod Pieces
pub mod Cover
use scst_qla2xxx.Base.{
  ℕ, zero, suc, ◌+◌, ◌-◌, Bool, true, false, Option, none, some, List, [], ◌∷◌, ◌==◌, leb,
  if◌then◌else◌,
}
use scst_qla2xxx.Base.Words.{u32}
use scst_qla2xxx.Request.Segments.{Sg}

-- `struct qla2_sgx`, without the fields for debugging. `cur_sg` is what is left of the list.
pub record Sgx : Type 0 where
  pub dma_addr : ℕ
  pub dma_len : ℕ
  pub tot_bytes : ℕ
  pub cur_sg : List Sg
  pub bytes_consumed : ℕ
  pub num_bytes : ℕ
  pub tot_partial : ℕ

-- The result 0, the result 1 with `*partial`, and the access through a pointer that is NULL.
pub data Got : Type 0 where
  finished fault : Got
  piece : Sgx → Bool → Got

-- The piece ends with the interval, or with the element.
unfoldable pub take_piece : ℕ → Sgx → Sg → Sgx × Bool
take_piece blk_sz s sg =
    let rest = u32 (sg.dma_len + 4294967296 - s.bytes_consumed) in
    let at = record s { dma_addr = sg.dma_address + s.bytes_consumed } in
    if leb blk_sz (u32 (s.tot_partial + rest))
    then (
      record at {
        dma_len = u32 (blk_sz + 4294967296 - s.tot_partial);
        tot_partial = 0;
        num_bytes = u32 (s.num_bytes + blk_sz);
      },
      false,
    )
    else (record at { dma_len = rest; tot_partial = u32 (s.tot_partial + rest) }, true)

-- The next element, when this one is used up.
unfoldable pub move_on : Sgx → Sg → List Sg → Sgx
move_on s sg sgs =
    let consumed = u32 (s.bytes_consumed + s.dma_len) in
    if sg.dma_len == consumed
    then record s { cur_sg = sgs; bytes_consumed = 0 }
    else record s { cur_sg = sg ∷ sgs; bytes_consumed = consumed }

unfoldable pub piece_of : ℕ → Sgx → List Sg → Got
unfolding take_piece move_on
piece_of blk_sz s [] = fault
piece_of blk_sz s (sg ∷ sgs) =
    let taken = take_piece blk_sz s sg in piece (move_on taken.0 sg sgs) taken.1

unfoldable pub get_one_block_sg : ℕ → Sgx → Got
unfolding piece_of
get_one_block_sg blk_sz s =
    if s.num_bytes == s.tot_bytes then finished else piece_of blk_sz s s.cur_sg

-- The descriptors of data in the order in which the loop stores them, for as many rounds as are given;
-- `none` if it has not ended by then, or ends with a fault.
unfoldable pub more_pieces : (Sgx → Option (List Sg)) → Got → Option (List Sg)
more_pieces rest finished = some []
more_pieces rest fault = none
more_pieces rest (piece s partial) = elim (rest s) [
  | none ↦ none
  | some ps ↦ some (record { dma_address = s.dma_addr; dma_len = s.dma_len } ∷ ps)
]

unfoldable pub data_pieces : ℕ → ℕ → Sgx → Option (List Sg)
unfolding get_one_block_sg more_pieces
data_pieces blk_sz zero s = none
data_pieces blk_sz (suc rounds) s =
    more_pieces (λ s'. data_pieces blk_sz rounds s') (get_one_block_sg blk_sz s)

-- The state after the memset, for a command of `bufflen` bytes.
unfoldable pub first_sgx : ℕ → List Sg → Sgx
first_sgx bufflen sgs = record {
  dma_addr = 0;
  dma_len = 0;
  tot_bytes = bufflen;
  cur_sg = sgs;
  bytes_consumed = 0;
  num_bytes = 0;
  tot_partial = 0;
}
