-- ===== src/Request/Alloc.antt =====
-- IOCBs that carry no SCSI command: qla2x00_alloc_iocbs, qla2x00_start_iocbs and the marker of
-- drivers/scsi/qla2xxx/qla_iocb.c, with qla82xx_start_iocbs of qla_nx.c.
pub mod Leak
use scst_qla2xxx.Base.{
  ℕ, ◌+◌, ◌-◌, ◌*◌, ◌/◌, Bool, true, false, Option, none, some, bit_or, ◌&&◌, ◌||◌, ltb, leb, ◌==◌,
  if◌then◌else◌,
}
use scst_qla2xxx.Base.Words.{u8, u16, u32, lsw, set_lo16, set_hi16, set_byte0, set_byte1, set_byte2}
use scst_qla2xxx.Base.Mem.{update}
use scst_qla2xxx.Request.Queue.{Ring, store, ReqQue, adjust_ring_index}
use scst_qla2xxx.Request.Handles.{find_handle}
use scst_qla2xxx.Request.Room.{make_room}
use scst_qla2xxx.Adapter.{Adapter, Srb, SrbType, scsi_cmd, set_srb, set_req}

-- memset of the words from `w` on of an entry of 16.
unfoldable pub clear_entry : Ring → ℕ → ℕ → Ring
clear_entry m e w e' w' = if e == e' && (leb w w' && ltb w' 16) then 0 else m e' w'

-- MAKE_HANDLE
abbrev pub make_handle : ℕ → ℕ → ℕ
make_handle x y = u32 (bit_or (u32 (x * 65536)) (u32 y))

abbrev pub is_scsi : SrbType → Bool
is_scsi scsi_cmd = true
is_scsi _ = false

-- "Prep command array."
unfoldable pub claim : Adapter → ℕ → ℕ → ℕ → Adapter
unfolding set_srb set_req
claim ha que handle sp =
    let req = ha.req_q_map que in
    set_srb
      (set_req ha que (record req {
        current_outstanding_cmd = handle;
        outstanding_cmds = update req.outstanding_cmds handle (some sp);
      }))
      sp (record (ha.srbs sp) { handle = handle })

-- "Prep packet": the entry at the pointer is cleared, and gets its count and its handle.
prep_packet : Bool → ReqQue → ℕ → ℕ → ReqQue
prep_packet qlafx00 req req_cnt handle =
    let e = req.ring_ptr in
    let zeroed = clear_entry req.ring e 0 in
    let counted = store zeroed e 0 (set_byte1 (zeroed e 0) req_cnt) in
    record req {
      cnt = req.cnt - req_cnt;
      ring = store counted e 1 (if qlafx00 then set_lo16 (counted e 1) handle else u32 handle);
    }

-- From the label `skip_cmd_array` on; `none` is the null pointer, `some` the packet's entry.
alloc_packet : Adapter → ℕ → ℕ → ℕ → Adapter × Option ℕ
unfolding clear_entry prep_packet set_req
alloc_packet ha out req_cnt handle =
    let (looked, room) = make_room (ha.req_q_map 0) req_cnt out in
    if room
    then (set_req ha 0 (prep_packet ha.chip.qlafx00 looked req_cnt handle), some looked.ring_ptr)
    else (set_req ha 0 looked, none)

-- For an SRB, a handle is claimed first; without one the handle is 0. An `int` is stored in the
-- `uint16_t` of the count.
unfoldable pub alloc_iocbs : Adapter → ℕ → Option ℕ → Adapter × Option ℕ
unfolding claim alloc_packet
alloc_iocbs ha out none = alloc_packet ha out 1 0
alloc_iocbs ha out (some sp) = elim (find_handle (ha.req_q_map 0)) [
  | none ↦ (ha, none)
  | some handle ↦
      let s = ha.srbs sp in
      alloc_packet (claim ha 0 handle sp) out (if is_scsi s.type_of then 1 else u16 s.iocbs) handle
]

-- The chip learns the new index by its register; a P3P chip by the doorbell, which packs it with the
-- port and the queue, and whose read-back loop leaves the value.
unfoldable pub start_req : Bool → ℕ → ReqQue → ReqQue
start_req p3p portnum req =
    let moved = adjust_ring_index req in
    record moved {
      req_q_in =
          if p3p
          then bit_or (bit_or (bit_or 0x04 (portnum * 32)) (moved.id * 256))
              (moved.ring_index * 65536)
          else moved.ring_index;
    }

unfoldable pub start_iocbs : Adapter → ℕ → Adapter
unfolding start_req set_req
start_iocbs ha que = set_req ha que (start_req ha.chip.p3p_type ha.portnum (ha.req_q_map que))

-- MK_SYNC_ALL is 2. For another type the marker names a port and a LUN; the bytes of the LUN are
-- those that the swap leaves, and the target's id stands in the low half or in the second byte.
mark : Adapter → ℕ → ℕ → ℕ → ℕ → ReqQue
mark ha e loop_id lun type_of =
    let req = ha.req_q_map 0 in
    let m = req.ring in
    let typed = store m e 0 (set_byte0 (m e 0) 0x04) in
    let m2 = store typed e 2 (set_byte2 (typed e 2) type_of) in
    let port =
      if ha.chip.fwi2_capable || ha.chip.extended_ids
      then set_lo16 (m2 e 2) loop_id
      else set_byte1 (m2 e 2) loop_id in
    let named = store m2 e 2 port in
    let full =
      if ha.chip.fwi2_capable
      then store
          (store (store named e 4 (u8 lun * 65536 + u8 (lun / 256) * 256)) e 3
            (set_byte1 (named e 3) ha.vp_idx))
          e 1 (make_handle req.id (named e 1))
      else store named e 3 (set_hi16 (named e 3) lun) in
    record req { ring = if type_of == 2 then m2 else full }

unfoldable pub marker : Adapter → ℕ → (loop_id lun type_of : ℕ) → Adapter × Bool
unfolding mark set_req
marker ha out loop_id lun type_of =
    let (ha', found) = alloc_iocbs ha out none in
    elim found [
      | none ↦ (ha', false)
      | some e ↦ (start_iocbs (set_req ha' 0 (mark ha' e loop_id lun type_of)) 0, true)
    ]
