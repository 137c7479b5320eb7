-- ===== src/Vport/Queues.antt =====
-- Further request and response queues: qla25xx_create_req_que, qla25xx_create_rsp_que,
-- qla25xx_free_req_que, qla25xx_free_rsp_que, qla25xx_delete_req_que, qla25xx_delete_rsp_que and
-- qla25xx_delete_queues (drivers/scsi/qla2xxx/qla_mid.c), and qla2x00_alloc_outstanding_cmds
-- (qla_init.c).
pub mod Keep
use scst_qla2xxx.Base.{
  ℕ, zero, suc, ◌+◌, ◌-◌, ◌/◌, Bool, true, false, Option, none, some, not, ◌&&◌, ◌||◌, leb, ltb,
  ◌==◌, bit_or, if◌then◌else◌,
}
use scst_qla2xxx.Base.Bitmap.{first_zero}
use scst_qla2xxx.Base.Words.{u8, u16}
use scst_qla2xxx.Base.Mem.{update}

-- What qla2x00_alloc_outstanding_cmds reads: that the array is there, the chip's type, that there are
-- several queues, and the firmware's counts. `kzalloc` says whether there is memory for so many slots.
pub record Slots : Type 0 where
  pub present : Bool
  pub num_outstanding_cmds : ℕ
  pub fwi2_capable : Bool
  pub multiqueue : Bool
  pub fw_xcb_count : ℕ
  pub fw_iocb_count : ℕ
  pub kzalloc : ℕ → Bool

wanted_cmds : Slots → ℕ
wanted_cmds s =
    if not s.fwi2_capable || s.multiqueue
    then 1024
    else if leb s.fw_xcb_count s.fw_iocb_count
    then s.fw_xcb_count
    else s.fw_iocb_count

-- The number of slots, and whether it succeeds. The count is kept in 16 bits.
unfoldable pub alloc_outstanding_cmds : Slots → ℕ × Bool
unfolding wanted_cmds
alloc_outstanding_cmds s =
    if s.present
    then (s.num_outstanding_cmds, true)
    else if s.kzalloc (u16 (wanted_cmds s))
    then (u16 (wanted_cmds s), true)
    else if s.kzalloc 128
    then (128, true)
    else (0, false)

-- A further request queue. `regs` is the number of the queue whose registers it uses, and `rsp` the
-- number of its response queue.
pub record NewReq : Type 0 where
  pub length : ℕ
  pub rid : ℕ
  pub vp_idx : ℕ
  pub qos : ℕ
  pub options : ℕ
  pub id : ℕ
  pub rsp : Option ℕ
  pub num_outstanding_cmds : ℕ
  pub current_outstanding_cmd : ℕ
  pub ring_index : ℕ
  pub cnt : ℕ
  pub regs : ℕ

pub record NewRsp : Type 0 where
  pub length : ℕ
  pub rid : ℕ
  pub vp_idx : ℕ
  pub options : ℕ
  pub id : ℕ
  pub msix : Option ℕ
  pub req : Option ℕ
  pub regs : ℕ

pub record Queues : Type 0 where
  pub req_qid_map : ℕ → Bool
  pub req_q_map : ℕ → Option NewReq
  pub max_req_queues : ℕ
  pub rsp_qid_map : ℕ → Bool
  pub rsp_q_map : ℕ → Option NewRsp
  pub max_rsp_queues : ℕ
  pub msix_enabled : Bool
  pub msix_nack_capable : Bool

unfoldable pub free_req_que : Queues → NewReq → Queues
free_req_que q req = if req.id == 0 then q else record q {
  req_q_map = update q.req_q_map req.id none;
  req_qid_map = update q.req_qid_map req.id false;
}

unfoldable pub free_rsp_que : Queues → NewRsp → Queues
free_rsp_que q rsp = if rsp.id == 0 then q else record q {
  rsp_q_map = update q.rsp_q_map rsp.id none;
  rsp_qid_map = update q.rsp_qid_map rsp.id false;
}

-- BIT_4 and BIT_5: alternate PCI bus number and devfn, by the bytes of `rid`.
unfoldable pub rid_options : ℕ → ℕ → ℕ
rid_options options rid =
    let bus = if u8 (rid / 256) == 0 then options else bit_or options 0x10 in
    if u8 rid == 0 then bus else bit_or bus 0x20

-- What comes from outside: whether there is memory for the queue, for its ring and for its slots, and
-- the result of qla25xx_init_req_que for the queue, 0 on success.
pub record ReqIo : Type 0 where
  pub have_req : Bool
  pub have_ring : Bool
  pub slots : Slots
  pub init : NewReq → ℕ

-- The arguments of the creation.
pub record ReqArgs : Type 0 where
  pub options : ℕ  -- uint16_t
  pub vp_idx : ℕ  -- uint8_t
  pub rid : ℕ  -- uint16_t
  pub rsp_que : Option ℕ  -- none if it is negative
  pub qos : ℕ  -- uint8_t

unfoldable pub new_req : ReqArgs → ℕ → ℕ → NewReq
unfolding rid_options
new_req args que_id num = record {
  length = 2048;
  rid = args.rid;
  vp_idx = args.vp_idx;
  qos = args.qos;
  options = rid_options args.options args.rid;
  id = que_id;
  rsp = args.rsp_que;
  num_outstanding_cmds = num;
  current_outstanding_cmd = 1;
  ring_index = 0;
  cnt = 2048;
  regs = que_id;
}

-- The queue with a free id, as far as qla25xx_init_req_que.
unfoldable pub add_req : Queues → NewReq → Queues
add_req q req = record q {
  req_qid_map = update q.req_qid_map req.id true;
  req_q_map = update q.req_q_map req.id (some req);
}

-- From "ret = qla25xx_init_req_que" on. The result is the id, or 0.
unfoldable pub init_req : ReqIo → Queues → NewReq → Queues × ℕ
unfolding add_req free_req_que
init_req io q req =
    let added = add_req q req in
    if io.init req == 0 then (added, req.id) else (
      free_req_que (record added { req_qid_map = update added.req_qid_map req.id false }) req,
      0,
    )

-- Before the id is there, the queue has the id 0, and is freed without a trace in the maps.
unfoldable pub create_req_que : ReqIo → Queues → ReqArgs → Queues × ℕ
unfolding init_req new_req alloc_outstanding_cmds
create_req_que io q args =
    let (num, ok) = alloc_outstanding_cmds io.slots in
    let que_id = u16 (first_zero q.req_qid_map q.max_req_queues 0) in
    if not io.have_req || not io.have_ring || not ok
    then (q, 0)
    else if leb q.max_req_queues que_id
    then (q, 0)
    else init_req io q (new_req args que_id num)

-- `options |= BIT_0` asks the chip to delete the queue. The result is that of the chip.
unfoldable pub delete_req_que : (NewReq → ℕ) → Queues → NewReq → Queues × ℕ
unfolding free_req_que
delete_req_que init q req =
    let going = record req { options = bit_or req.options 1 } in
    let ret = init going in if ret == 0 then (free_req_que q going, ret) else (q, ret)

pub record RspIo : Type 0 where
  pub have_rsp : Bool
  pub have_ring : Bool
  pub request_irq : NewRsp → ℕ
  pub init : NewRsp → ℕ

pub record RspArgs : Type 0 where
  pub options : ℕ
  pub vp_idx : ℕ
  pub rid : ℕ
  pub req : Option ℕ  -- none if it is negative

unfoldable pub new_rsp : Queues → RspArgs → ℕ → NewRsp
unfolding rid_options
new_rsp q args que_id =
    let options = rid_options args.options args.rid in
    record {
      length = 128;
      rid = args.rid;
      vp_idx = args.vp_idx;
      options = if q.msix_nack_capable then options else bit_or options 0x40;
      id = que_id;
      msix = if q.msix_enabled then some (que_id + 1) else none;
      req = none;
      regs = que_id;
    }

unfoldable pub set_rsp : Queues → NewRsp → Queues
set_rsp q rsp = record q { rsp_q_map = update q.rsp_q_map rsp.id (some rsp) }

-- From "ret = qla25xx_request_irq" on.
unfoldable pub init_rsp : RspIo → Queues → NewRsp → Option ℕ → Queues × ℕ
unfolding set_rsp free_rsp_que
init_rsp io q rsp req =
    let added = record (set_rsp q rsp) { rsp_qid_map = update q.rsp_qid_map rsp.id true } in
    if not (io.request_irq rsp == 0)
    then (free_rsp_que added rsp, 0)
    else if not (io.init rsp == 0)
    then (
      free_rsp_que (record added { rsp_qid_map = update added.rsp_qid_map rsp.id false }) rsp,
      0,
    )
    else (set_rsp added (record rsp { req = req }), rsp.id)

unfoldable pub create_rsp_que : RspIo → Queues → RspArgs → Queues × ℕ
unfolding init_rsp new_rsp
create_rsp_que io q args =
    let que_id = u16 (first_zero q.rsp_qid_map q.max_rsp_queues 0) in
    if not io.have_rsp || not io.have_ring
    then (q, 0)
    else if leb q.max_rsp_queues que_id
    then (q, 0)
    else init_rsp io q (new_rsp q args que_id) args.req

unfoldable pub delete_rsp_que : (NewRsp → ℕ) → Queues → NewRsp → Queues × ℕ
unfolding free_rsp_que
delete_rsp_que init q rsp =
    let going = record rsp { options = bit_or rsp.options 1 } in
    let ret = init going in if ret == 0 then (free_rsp_que q going, ret) else (q, ret)

-- The loops of qla25xx_delete_queues, from the queue `cnt` on; they end at the first failure.
unfoldable pub delete_reqs : (NewReq → ℕ) → Queues → ℕ → ℕ → Queues × ℕ
unfolding delete_req_que
delete_reqs init q zero cnt = (q, 0)
delete_reqs init q (suc rounds) cnt = elim (q.req_q_map cnt) [
  | none ↦ delete_reqs init q rounds (cnt + 1)
  | some req ↦
      let (q', ret) = delete_req_que init q req in
      if ret == 0 then delete_reqs init q' rounds (cnt + 1) else (q', ret)
]

unfoldable pub delete_rsps : (NewRsp → ℕ) → Queues → ℕ → ℕ → Queues × ℕ
unfolding delete_rsp_que
delete_rsps init q zero cnt = (q, 0)
delete_rsps init q (suc rounds) cnt = elim (q.rsp_q_map cnt) [
  | none ↦ delete_rsps init q rounds (cnt + 1)
  | some rsp ↦
      let (q', ret) = delete_rsp_que init q rsp in
      if ret == 0 then delete_rsps init q' rounds (cnt + 1) else (q', ret)
]

-- All queues but those numbered 0.
unfoldable pub delete_queues : (NewReq → ℕ) → (NewRsp → ℕ) → Queues → Queues × ℕ
unfolding delete_reqs delete_rsps
delete_queues init_req init_rsp q =
    let (q', ret) = delete_reqs init_req q (q.max_req_queues - 1) 1 in
    if ret == 0 then delete_rsps init_rsp q' (q.max_rsp_queues - 1) 1 else (q', ret)
