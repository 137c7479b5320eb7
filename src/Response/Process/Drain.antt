-- ===== src/Response/Process/Drain.antt =====
-- How the loops of Response/Process end.
use scst_qla2xxx.Base.{
  ℕ, zero, suc, ◌+◌, ◌<◌, ◌≤◌, ◌≡◌, refl, ap, sym, true, false, not, arith, if◌then◌else◌,
  Bool-cases, inl, inr,
}
use mathlib.Core.Path.{subst₂}
use scst_qla2xxx.Base.Mem.{update}
use scst_qla2xxx.Adapter.{Adapter}
use scst_qla2xxx.Response.Packet.{Pkt, RspQue, next_entry}
use scst_qla2xxx.Response.Status.{Others}
use scst_qla2xxx.Response.Entry.Reads.{Leaves, status_entry-Leaves, status_cont_entry-Leaves}
use scst_qla2xxx.Response.Process.{
  handle_2x00, handle_24xx, round, drain, process_response_queue_2x00, process_response_queue_24xx,
}

-- How many of the first `n` entries are still to be processed.
abbrev pub pending : (ℕ → Pkt) → ℕ → ℕ
pending ring zero = 0
pending ring (suc n) = (if (ring n).processed then 0 else 1) + pending ring n

pending-le : (ring : ℕ → Pkt) (n : ℕ) → pending ring n ≤ n
pending-le ring zero = omega arith
pending-le ring (suc n) = ground (arith, pending-le ring n)

pending_beyond :
    (ring : ℕ → Pkt) (n p : ℕ) (pkt : Pkt) → n ≤ p → pending (update ring p pkt) n ≡ pending ring n
pending_beyond ring zero p pkt h = refl
pending_beyond ring (suc n) p pkt h = ground (arith, pending_beyond ring n p pkt)

pending-update :
    (ring : ℕ → Pkt) (n p : ℕ) (pkt : Pkt)
    → p < n
    → (ring p).processed ≡ false
    → pkt.processed ≡ true
    → suc (pending (update ring p pkt) n) ≡ pending ring n
pending-update ring zero p pkt h a b = absurd (omega arith)
pending-update ring (suc n) p pkt h a b =
    ground (arith, pending-update ring n p pkt, pending_beyond ring n p pkt)

-- The pointer and the index agree and lie in the ring.
pub record IsRspRing (rsp : RspQue) : Type 0 where
  pub in_step : rsp.ring_ptr ≡ rsp.ring_index
  pub within : rsp.ring_index < rsp.length
  pub word : rsp.length < 65536

next_entry-IsRspRing : (rsp : RspQue) → IsRspRing rsp → IsRspRing (next_entry rsp)
unfolding next_entry
next_entry-IsRspRing rsp v = ground arith

handle_2x00-Leaves :
    (others : Others) (ha : Adapter) (rsp : RspQue) (pkt : Pkt)
    → Leaves rsp (handle_2x00 others ha rsp pkt)
unfolding handle_2x00
handle_2x00-Leaves others ha rsp pkt =
    ground (arith, status_entry-Leaves others ha rsp pkt, status_cont_entry-Leaves ha rsp pkt)

handle_24xx-Leaves :
    (others : Others) (ha : Adapter) (rsp : RspQue) (pkt : Pkt)
    → Leaves rsp (handle_24xx others ha rsp pkt)
unfolding handle_24xx
handle_24xx-Leaves others ha rsp pkt =
    ground (arith, status_entry-Leaves others ha rsp pkt, status_cont_entry-Leaves ha rsp pkt)

next_entry_same :
    (rsp : RspQue) → ((next_entry rsp).ring ≡ rsp.ring) × ((next_entry rsp).length ≡ rsp.length)
unfolding next_entry
next_entry_same rsp = ground arith

moved-IsRspRing :
    (rsp rsp' : RspQue)
    → IsRspRing rsp
    → rsp'.ring_ptr ≡ (next_entry rsp).ring_ptr
    → rsp'.ring_index ≡ (next_entry rsp).ring_index
    → rsp'.length ≡ rsp.length
    → IsRspRing rsp'
moved-IsRspRing rsp rsp' v p i l = ground (arith, next_entry-IsRspRing rsp v, next_entry_same rsp)

none_pending : (ring : ℕ → Pkt) (n p : ℕ) → pending ring n ≡ 0 → p < n → (ring p).processed ≡ true
none_pending ring zero p h lt = absurd (omega arith)
none_pending ring (suc n) p h lt = ground (arith, none_pending ring n p)

-- The loop, for any handler that leaves the ring.
module _ (handle : Adapter → RspQue → Pkt → Adapter × RspQue)
    (leaves : (ha : Adapter) (rsp : RspQue) (pkt : Pkt) → Leaves rsp (handle ha rsp pkt)) where
  -- One round marks the entry at the pointer and no other, and moves on.
  round_lem :
      (ha : Adapter) (rsp : RspQue)
      → let rsp' = (round handle ha rsp).1 in
        (rsp'.ring_ptr ≡ (next_entry rsp).ring_ptr)
        × (rsp'.ring_index ≡ (next_entry rsp).ring_index)
        × (rsp'.length ≡ rsp.length)
        × (rsp'.ring
            ≡ update rsp.ring rsp.ring_ptr (record (rsp.ring rsp.ring_ptr) { processed = true }))
  unfolding round
  round_lem ha rsp =
      ground (arith, leaves ha (next_entry rsp) (rsp.ring rsp.ring_ptr), next_entry_same rsp)

  drained :
      (fuel : ℕ) (ha : Adapter) (rsp : RspQue)
      → IsRspRing rsp
      → pending rsp.ring rsp.length ≤ fuel
      → let rsp' = (drain handle fuel ha rsp).1 in
        IsRspRing rsp' × ((rsp'.ring rsp'.ring_ptr).processed ≡ true)
  unfolding drain
  drained zero ha rsp v h =
      (v, none_pending rsp.ring rsp.length rsp.ring_ptr (omega arith) (omega arith))
  drained (suc fuel) ha rsp v h = elim (Bool-cases (rsp.ring rsp.ring_ptr).processed) [
    | inl empty ↦ rw (empty, drain) (v, empty)
    | inr more ↦
        let (p, i, l, m) = round_lem ha rsp in
        let moved = round handle ha rsp in
        let one =
          pending-update rsp.ring rsp.length rsp.ring_ptr
            (record (rsp.ring rsp.ring_ptr) { processed = true }) (omega arith) more refl in
        let fewer : pending moved.1.ring moved.1.length ≤ fuel =
          subst₂ (λ r n. pending r n ≤ fuel) (sym m) (sym l) (omega (arith, one)) in
        rw (more, drain) (drained fuel moved.0 moved.1 (moved-IsRspRing rsp moved.1 v p i l) fewer)
  ]

write_out-IsRspRing :
    (rsp : RspQue) → IsRspRing rsp → IsRspRing (record rsp { rsp_q_out = rsp.ring_index })
write_out-IsRspRing rsp v = ground arith

module _ (others : Others) (ha : Adapter) (rsp : RspQue) where
  -- On an adapter that is online, with a response ring whose pointer and index agree, the loop of
  -- qla24xx_process_response_queue ends by its own test within one round per entry: the next
  -- entry has been processed, pointer and index still agree inside the ring, and the chip is told
  -- the index.
  pub process_response_queue_24xx_drained :
      ha.online ≡ true
      → IsRspRing rsp
      → let rsp' = (process_response_queue_24xx others ha rsp).1 in
        IsRspRing rsp'
        × ((rsp'.ring rsp'.ring_ptr).processed ≡ true)
        × (rsp'.rsp_q_out ≡ rsp'.ring_index)
  unfolding process_response_queue_24xx
  process_response_queue_24xx_drained up v =
      let d =
        drained (handle_24xx others) (handle_24xx-Leaves others) rsp.length ha rsp v
          (pending-le rsp.ring rsp.length) in
      rw (ap not up) (write_out-IsRspRing _ d.0, d.1, refl)

  -- The same as process_response_queue_24xx_drained of qla2x00_process_response_queue, for chips
  -- before ISP24xx.
  pub process_response_queue_2x00_drained :
      ha.online ≡ true
      → IsRspRing rsp
      → let rsp' = (process_response_queue_2x00 others ha rsp).1 in
        IsRspRing rsp'
        × ((rsp'.ring rsp'.ring_ptr).processed ≡ true)
        × (rsp'.rsp_q_out ≡ rsp'.ring_index)
  unfolding process_response_queue_2x00
  process_response_queue_2x00_drained up v =
      let d =
        drained (handle_2x00 others) (handle_2x00-Leaves others) rsp.length ha rsp v
          (pending-le rsp.ring rsp.length) in
      rw (ap not up) (write_out-IsRspRing _ d.0, d.1, refl)
