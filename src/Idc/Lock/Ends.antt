-- ===== src/Idc/Lock/Ends.antt =====
-- The recovery of the lock ends (Idc/Lock).
use scst_qla2xxx.Base.{
  inl, inr, ℕ, zero, suc, ◌+◌, ◌*◌, ◌≤◌, ◌<◌, ◌≡◌, refl, Bool, false, Option, some, leb, arith,
  Bool-cases,
}
use scst_qla2xxx.Idc.{Nic, Peers, reads, pause, driver_lockid}
use scst_qla2xxx.Base.Span.{span}
use scst_qla2xxx.Idc.Lock.{wait_logic, lock_recovery_rounds, idc_lock_recovery}

-- Outside an interrupt, a round of the wait takes a tenth of a second.
wait_logic_lem :
    (peers : Peers) (nic : Nic) (tenth : ℕ)
    → peers.in_interrupt ≡ false
    → nic.hz ≡ 10 * tenth
    → (nic.clock + tenth ≤ (wait_logic peers nic).clock) × ((wait_logic peers nic).hz ≡ nic.hz)
unfolding wait_logic pause
wait_logic_lem peers nic tenth awake e = rw awake (omega (arith, e), refl)

-- The loop ends, whatever the other functions do.
record Ends (o : Option (Nic × Bool)) : Type 0 where
  result : Nic × Bool
  ends : o ≡ some result

lock_recovery_rounds-step :
    (peers : Peers) (swaps : ℕ → Bool) (timeout rounds : ℕ) (nic : Nic)
    → (nic.clock < timeout
        → Ends (lock_recovery_rounds peers swaps timeout rounds (wait_logic peers nic)))
    → Ends (lock_recovery_rounds peers swaps timeout (suc rounds) nic)
unfolding lock_recovery_rounds
lock_recovery_rounds-step peers swaps t rounds nic later =
    elim (Bool-cases (reads nic driver_lockid)) [
      | inr e ↦ rw e (record { result = _; ends = refl })
      | inl e ↦ elim (Bool-cases (leb t nic.clock)) [
        | inl late ↦ rw (e, late) (record { result = _; ends = refl })
        | inr early ↦ elim (Bool-cases (swaps nic.pauses)) [
          | inl s ↦ rw (e, early, s) (record { result = _; ends = refl })
          | inr s ↦ rw (e, early, s) (later (ground arith))
        ]
      ]
    ]

lock_recovery_rounds-Ends :
    (peers : Peers) (swaps : ℕ → Bool) (timeout tenth rounds : ℕ) (nic : Nic)
    → peers.in_interrupt ≡ false
    → nic.hz ≡ 10 * tenth
    → timeout ≤ nic.clock + span tenth rounds
    → Ends (lock_recovery_rounds peers swaps timeout (suc rounds) nic)
unfolding span
lock_recovery_rounds-Ends peers swaps t tenth zero nic awake e le =
    lock_recovery_rounds-step peers swaps t zero nic (λ lt. absurd (omega arith))
lock_recovery_rounds-Ends peers swaps t tenth (suc rounds) nic awake e le =
    lock_recovery_rounds-step peers swaps t (suc rounds) nic (λ lt.
      let (later, same) = wait_logic_lem peers nic tenth awake e in
      lock_recovery_rounds-Ends peers swaps t tenth rounds (wait_logic peers nic) awake
        (omega (arith, same, e)) (omega arith))

-- Outside an interrupt, and where a second has a number of jiffies that is a multiple of ten,
-- qla83xx_idc_lock_recovery returns within the rounds that are given to it, whatever the other
-- functions do to the registers and however late a sleep ends.
pub idc_lock_recovery_total :
    (peers : Peers) (swaps : ℕ → Bool) (nic : Nic) (tenth : ℕ)
    → peers.in_interrupt ≡ false
    → nic.hz ≡ 10 * tenth
    → (r : Nic × Bool) × (idc_lock_recovery peers swaps nic ≡ some r)
unfolding idc_lock_recovery span
idc_lock_recovery_total peers swaps nic tenth awake e =
    let w =
      lock_recovery_rounds-Ends peers swaps (nic.clock + 2 * nic.hz) tenth 21 nic awake e
        (omega (arith, e)) in
    (w.result, w.ends)
