-- ===== src/Request/Alloc/Leak.antt =====
-- The slot and the last entries of the ring in Request/Alloc: qla2x00_alloc_iocbs and
-- qla2x00_marker (drivers/scsi/qla2xxx/qla_iocb.c).
use scst_qla2xxx.Base.{ℕ, ◌+◌, ◌<◌, ◌≡◌, ap, ◌∙◌, true, some, arith}
use scst_qla2xxx.Request.Queue.{adjust_ring_index}
use scst_qla2xxx.Request.Handles.{find_handle}
use scst_qla2xxx.Request.Room.{make_room}
use scst_qla2xxx.Request.Room.Safe.{Fits}
use scst_qla2xxx.Adapter.{Adapter, set_req, set_srb}
use scst_qla2xxx.Request.Alloc.{
  claim, prep_packet, alloc_packet, alloc_iocbs, start_req, start_iocbs, mark, marker,
}

alloc_packet_cmds :
    (ha : Adapter) (out req_cnt handle : ℕ)
    → ((alloc_packet ha out req_cnt handle).0.req_q_map 0).outstanding_cmds
      ≡ (ha.req_q_map 0).outstanding_cmds
unfolding alloc_packet make_room prep_packet set_req
alloc_packet_cmds ha out req_cnt handle = ground arith

claim_slot :
    (ha : Adapter) (handle sp : ℕ)
    → ((claim ha 0 handle sp).req_q_map 0).outstanding_cmds handle ≡ some sp
unfolding claim set_req set_srb
claim_slot ha handle sp = ground arith

-- When a handle is found for it, an SRB that is given to qla2x00_alloc_iocbs stands in the slot
-- of the handle afterwards, whether an entry was allocated or not.
pub alloc_iocbs_slot :
    (ha : Adapter) (out sp handle : ℕ)
    → find_handle (ha.req_q_map 0) ≡ some handle
    → ((alloc_iocbs ha out (some sp)).0.req_q_map 0).outstanding_cmds handle ≡ some sp
unfolding alloc_iocbs
alloc_iocbs_slot ha out sp handle e =
    rw (e, alloc_iocbs)
      (ap (λ cmds. cmds handle) (alloc_packet_cmds (claim ha 0 handle sp) out _ handle)
        ∙ claim_slot ha handle sp)

-- When all entries of a sound ring but one wait for the chip, a marker that is sent makes the
-- index equal to the chip's, and the next look at the chip for any number of entries counts the
-- whole ring as free.
pub marker_fills :
    (ha : Adapter) (out used need : ℕ)
    → Fits (ha.req_q_map 0) out used
    → used + 1 ≡ (ha.req_q_map 0).length
    → (marker ha out 0 0 2).1 ≡ true
    → 0 < need
    → let full = (marker ha out 0 0 2).0.req_q_map 0 in
      (full.ring_index ≡ out) × ((make_room full need out).0.cnt ≡ full.length)
unfolding marker mark alloc_iocbs alloc_packet make_room prep_packet start_iocbs start_req set_req
    adjust_ring_index
marker_fills ha out used need f u s p = ground arith
