-- ===== src/Request/Room.antt =====
-- Room on the request ring: the lines that compute `req->cnt` anew from the chip's out index, in
-- qla2x00_start_scsi, qla24xx_start_scsi and qla2x00_alloc_iocbs of
-- drivers/scsi/qla2xxx/qla_iocb.c.
pub mod Safe
use scst_qla2xxx.Base.{ℕ, ◌+◌, ◌-◌, Bool, ltb, leb, if◌then◌else◌}
use scst_qla2xxx.Base.Words.{u16}
use scst_qla2xxx.Request.Queue.{ReqQue}

-- `out` is the register or the shadow index that was read, into a `uint16_t`.
refresh : ReqQue → ℕ → ReqQue
refresh req out =
    let cnt = u16 out in
    record req {
      cnt =
          if ltb req.ring_index cnt
          then cnt - req.ring_index
          else u16 (req.length + 65536 - (req.ring_index - cnt));
    }

-- Whether `need` entries are free, after a look at the chip if the count does not say so.
unfoldable pub make_room : ReqQue → ℕ → ℕ → ReqQue × Bool
unfolding refresh
make_room req need out =
    let looked = if ltb req.cnt need then refresh req out else req in (looked, leb need looked.cnt)
