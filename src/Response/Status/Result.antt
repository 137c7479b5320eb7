-- ===== src/Response/Status/Result.antt =====
-- The result that the switch of Response/Status gives the mid layer, beside the transfer.
use scst_qla2xxx.Base.{ℕ, ◌+◌, ◌-◌, ◌≤◌, ◌≡◌, false, Option, none, some, arith}
use scst_qla2xxx.Base.Words.{u32}
use scst_qla2xxx.Adapter.{ScsiCmnd}
use scst_qla2xxx.Response.Handle.{did_ok}
use scst_qla2xxx.Response.Status.{
  Locals, outcome, complete_outcome, underrun_outcome, disrupted_outcome, with_sense,
}

-- What was transferred, the buffer's length less the residual in 32 bits, is at least the underflow
-- limit of the mid layer; with no residual all was transferred.
abbrev pub MeetsUnderflow : ScsiCmnd → Option ℕ → Type 0
MeetsUnderflow cp none = Unit
MeetsUnderflow cp (some r) = cp.underflow ≤ u32 (cp.bufflen + 4294967296 - r)

complete-did_ok :
    (l : Locals) (cp : ScsiCmnd)
    → (complete_outcome l cp).res ≡ did_ok
    → MeetsUnderflow cp (complete_outcome l cp).set_resid
unfolding complete_outcome with_sense
complete-did_ok l cp h = ground arith

underrun-did_ok :
    (l : Locals) (cp : ScsiCmnd)
    → (underrun_outcome l cp).res ≡ did_ok
    → MeetsUnderflow cp (underrun_outcome l cp).set_resid
unfolding underrun_outcome with_sense
underrun-did_ok l cp h = ground arith

-- When the switch of qla2x00_status_entry gives a command the result success without a SCSI
-- status, and does not leave the result to the DIF handler, either no residual was set, or the
-- bytes transferred, in 32 bits, meet the underflow limit of the mid layer.
pub outcome-did_ok :
    (l : Locals) (cp : ScsiCmnd)
    → (outcome l cp).dif ≡ false
    → (outcome l cp).res ≡ did_ok
    → MeetsUnderflow cp (outcome l cp).set_resid
unfolding outcome disrupted_outcome
outcome-did_ok l cp d h = ground (arith, complete-did_ok l cp, underrun-did_ok l cp)
