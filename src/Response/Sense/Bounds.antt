-- ===== src/Response/Sense/Bounds.antt =====
-- The sense buffer and the continuation entries of Response/Sense.
use scst_qla2xxx.Base.{
  ℕ, ◌+◌, ◌-◌, ◌*◌, ◌<◌, ◌≤◌, ◌≡◌, none, some, List, [], ◌∷◌, arith, leb, ◌==◌, if◌then◌else◌,
}
use Prim.Native.Nat.{min}
use scst_qla2xxx.Base.Lists.{length}
use scst_qla2xxx.Adapter.{Adapter, Srb, ScsiCmnd}
use scst_qla2xxx.Response.Packet.{Pkt, RspQue}
use scst_qla2xxx.Response.Sense.{
  sense_buffersize, copy_bytes, handle_sense, cont_size, fcp_swap, continue_sense,
  status_cont_entry,
}

-- After the first entry of sense data, the offset where it goes on and the bytes still to come
-- make up what the driver keeps, at most the 96 bytes of the buffer; the offset is no more than
-- the entry holds; and the response queue waits for this SRB exactly if bytes are to come.
pub handle_sense_lem :
    (cp : ScsiCmnd) (s : Srb) (sp : ℕ) (from : ℕ → ℕ) (par len : ℕ) (rsp : RspQue) (res : ℕ)
    → let (s', rsp') = handle_sense cp s sp from par len rsp res in
      (s'.request_sense_ptr + s'.request_sense_length ≡ min len sense_buffersize)
      × (s'.request_sense_ptr ≡ min par (min len sense_buffersize))
      × (rsp'.status_srb ≡ (if s'.request_sense_length == 0 then rsp.status_srb else some sp))
unfolding handle_sense
handle_sense_lem cp s sp from par len rsp res = ground arith

-- The SRB `sp` waits with a command, and has `left` bytes to come.
pub record Waits (ha : Adapter) (rsp : RspQue) (sp left : ℕ) (cp : ScsiCmnd) : Type 0 where
  pub waiting : rsp.status_srb ≡ some sp
  pub command : (ha.srbs sp).cmd ≡ some cp
  pub still : (ha.srbs sp).request_sense_length ≡ left
  pub fits : (ha.srbs sp).request_sense_ptr + left ≤ sense_buffersize

-- The last entry: no byte beyond the buffer is written, and the command is completed with the
-- result that was kept for it.
status_cont_last :
    (ha : Adapter) (rsp : RspQue) (pkt : Pkt) (sp left : ℕ) (cp : ScsiCmnd)
    → Waits ha rsp sp left cp
    → 0 < left
    → left ≤ cont_size
    → let (ha', rsp') = status_cont_entry ha rsp pkt in
      (ha'.completions ≡ (sp, cp.result) ∷ ha.completions) × (rsp'.status_srb ≡ none)
unfolding status_cont_entry
status_cont_last ha rsp pkt sp left cp w pos small = ground (arith, w.waiting, w.command, w.still)

-- The command after one more entry.
abbrev continued : Adapter → Pkt → ℕ → ScsiCmnd → ScsiCmnd
continued ha pkt sp cp = record cp {
  sense_buffer =
      copy_bytes cp.sense_buffer (ha.srbs sp).request_sense_ptr
        (if ha.chip.fwi2_capable then fcp_swap pkt.cont_data else pkt.cont_data) cont_size;
}

status_cont-continues :
    (ha : Adapter) (rsp : RspQue) (pkt : Pkt) (sp left : ℕ) (cp : ScsiCmnd)
    → Waits ha rsp sp left cp
    → 0 < left
    → status_cont_entry ha rsp pkt ≡ continue_sense ha rsp sp (ha.srbs sp) cp pkt
unfolding status_cont_entry
status_cont-continues ha rsp pkt sp left cp w pos = ground (arith, w.waiting, w.command, w.still)

continue_more :
    (ha : Adapter) (rsp : RspQue) (pkt : Pkt) (sp left : ℕ) (s : Srb) (cp : ScsiCmnd)
    → rsp.status_srb ≡ some sp
    → s.request_sense_length ≡ left
    → cont_size < left
    → s.request_sense_ptr + left ≤ sense_buffersize
    → let bytes = if ha.chip.fwi2_capable then fcp_swap pkt.cont_data else pkt.cont_data in
      let cp' = record cp {
        sense_buffer = copy_bytes cp.sense_buffer s.request_sense_ptr bytes cont_size;
      } in
      let (ha', rsp') = continue_sense ha rsp sp s cp pkt in
      Waits ha' rsp' sp (left - cont_size) cp' × (ha'.completions ≡ ha.completions)
unfolding continue_sense
continue_more ha rsp pkt sp left s cp waits still more fits = ground arith

status_cont_more :
    (ha : Adapter) (rsp : RspQue) (pkt : Pkt) (sp left : ℕ) (cp : ScsiCmnd)
    → Waits ha rsp sp left cp
    → cont_size < left
    → let (ha', rsp') = status_cont_entry ha rsp pkt in
      Waits ha' rsp' sp (left - cont_size) (continued ha pkt sp cp)
      × (ha'.completions ≡ ha.completions)
status_cont_more ha rsp pkt sp left cp w more =
    rw (status_cont-continues ha rsp pkt sp left cp w (omega arith))
      (continue_more ha rsp pkt sp left (ha.srbs sp) cp w.waiting w.still more w.fits)

-- The response queue's continuation entries, one after the other.
unfoldable pub continue_all : Adapter → RspQue → List Pkt → Adapter × RspQue
continue_all ha rsp [] = (ha, rsp)
continue_all ha rsp (pkt ∷ pkts) =
    let (ha', rsp') = status_cont_entry ha rsp pkt in continue_all ha' rsp' pkts

-- An SRB that waits with a command and some bytes of sense data to come, inside the sense buffer,
-- is completed once, with the result that was kept for it, by as many continuation entries of 60
-- bytes as hold those bytes, and by no fewer; any number of entries up to that many is allowed
-- for.
pub continue_all_completes :
    (pkts : List Pkt) (ha : Adapter) (rsp : RspQue) (sp left : ℕ) (cp : ScsiCmnd)
    → Waits ha rsp sp left cp
    → 0 < left
    → cont_size * length pkts < left + cont_size
    → let (ha', rsp') = continue_all ha rsp pkts in
      (ha'.completions ≡ (
        if leb left (cont_size * length pkts)
        then (sp, cp.result) ∷ ha.completions
        else ha.completions))
      × (rsp'.status_srb ≡ (if leb left (cont_size * length pkts) then none else some sp))
unfolding continue_all
continue_all_completes [] ha rsp sp left cp w pos h = ground (arith, w.waiting)
continue_all_completes (pkt ∷ []) ha rsp sp left cp w pos h =
    ground (
      arith,
      status_cont_last ha rsp pkt sp left cp w pos,
      status_cont_more ha rsp pkt sp left cp w,
    )
continue_all_completes (pkt ∷ next ∷ pkts) ha rsp sp left cp w pos h =
    let more : cont_size < left = omega arith in
    let (w', same) = status_cont_more ha rsp pkt sp left cp w more in
    let r = status_cont_entry ha rsp pkt in
    let ih =
      continue_all_completes (next ∷ pkts) r.0 r.1 sp (left - cont_size) (continued ha pkt sp cp) w'
        (omega arith) (omega arith) in
    ground (arith, ih, same)
