-- ===== src/Idc/Reset/Acked.antt =====
-- When the device is reset: all who are present have acknowledged, or are no longer present.
use scst_qla2xxx.Base.{
  ℕ, zero, suc, ◌+◌, ◌*◌, ◌≤◌, ◌<◌, ◌≡◌, ◌⊎◌, ◌∙◌, sym, ==_iff, inl, inr, refl, ap, Bool, true, leb,
  ◌==◌, bit_and, arith, Bool-cases,
}
use scst_qla2xxx.Base.Span.{span, span-mul}
use scst_qla2xxx.Base.Mem.{update_self}
use scst_qla2xxx.Base.Words.{u32}
use scst_qla2xxx.Idc.{Nic, Peers, rd_reg, wr_reg, pause, dev_state, drv_ack, drv_presence, dev_cold}
use scst_qla2xxx.Idc.Reset.{Acks, read_acks, all_acked, time_out, wait_acks, need_reset_handler}

-- The registers that the handler uses can be accessed.
pub record Answers (nic : Nic) : Type 0 where
  pub ack_answers : nic.answers drv_ack ≡ true
  pub presence_answers : nic.answers drv_presence ≡ true
  pub state_answers : nic.answers dev_state ≡ true

-- No one is present who has not acknowledged.
abbrev pub IsAcked : Nic → Type 0
IsAcked nic =
    (bit_and (nic.regs drv_ack) (nic.regs drv_presence) ≡ nic.regs drv_presence)
    ⊎ (u32 (nic.regs drv_presence) ≡ u32 (nic.regs drv_ack))

pause-Answers : (peers : Peers) (ms : ℕ) (nic : Nic) → Answers nic → Answers (pause peers ms nic)
unfolding pause
pause-Answers peers ms nic a = record {
  ack_answers = a.ack_answers;
  presence_answers = a.presence_answers;
  state_answers = a.state_answers;
}

pub pause-clock : (peers : Peers) (nic : Nic) → nic.clock + nic.hz ≤ (pause peers 1000 nic).clock
unfolding pause
pause-clock peers nic = omega arith

pub pause-hz : (peers : Peers) (ms : ℕ) (nic : Nic) → (pause peers ms nic).hz ≡ nic.hz
unfolding pause
pause-hz peers ms nic = refl

read_acks_lem :
    (nic : Nic) (old : Acks)
    → Answers nic
    → ((read_acks nic old).acks ≡ nic.regs drv_ack)
      × ((read_acks nic old).present ≡ nic.regs drv_presence)
unfolding read_acks rd_reg
read_acks_lem nic old a = (rw a.ack_answers refl, rw a.presence_answers refl)

all_acked-IsAcked :
    (nic : Nic) (old : Acks) → Answers nic → all_acked (read_acks nic old) ≡ true → IsAcked nic
unfolding all_acked
all_acked-IsAcked nic old a e =
    let (k, p) = read_acks_lem nic old a in inl (rw (sym k, sym p) ((==_iff _ _).0 e))

write_presence :
    (nic : Nic) (v : ℕ)
    → Answers nic
    → ((wr_reg nic drv_presence v).regs drv_presence ≡ u32 v)
      × ((wr_reg nic drv_presence v).regs drv_ack ≡ nic.regs drv_ack)
      × Answers (wr_reg nic drv_presence v)
unfolding wr_reg
write_presence nic v a = rw a.presence_answers (
  update_self nic.regs drv_presence (u32 v),
  refl,
  record {
    ack_answers = a.ack_answers;
    presence_answers = a.presence_answers;
    state_answers = a.state_answers;
  },
)

time_out_lem :
    (nic : Nic) (old : Acks)
    → Answers nic
    → IsAcked (time_out nic (read_acks nic old)) × Answers (time_out nic (read_acks nic old))
unfolding time_out
time_out_lem nic old a =
    let (k, p) = read_acks_lem nic old a in
    let (now, same, b) = write_presence nic (read_acks nic old).acks a in
    elim (Bool-cases ((read_acks nic old).acks == (read_acks nic old).present)) [
      | inl e ↦ rw e (inr (ap u32 (sym p ∙ sym ((==_iff _ _).0 e) ∙ k)), a)
      | inr e ↦ rw e (inr (omega (arith, now, same, k)), b)
    ]

-- How the loop ends.
record Ended (r : Nic × Bool) : Type 0 where
  ended : r.1 ≡ true
  acked : IsAcked r.0
  still : Answers r.0

wait_acks-step :
    (peers : Peers) (ack_timeout rounds : ℕ) (nic : Nic) (old : Acks)
    → Answers nic
    → (nic.clock < ack_timeout
        → Ended (wait_acks peers ack_timeout rounds (pause peers 1000 nic) (read_acks nic old)))
    → Ended (wait_acks peers ack_timeout (suc rounds) nic old)
unfolding wait_acks
wait_acks-step peers t rounds nic old a later = elim (Bool-cases (all_acked (read_acks nic old))) [
  | inl e ↦ rw e (record { ended = refl; acked = all_acked-IsAcked nic old a e; still = a })
  | inr e ↦ elim (Bool-cases (leb t nic.clock)) [
    | inl late ↦
        let (k, b) = time_out_lem nic old a in
        rw (e, late) (record { ended = refl; acked = k; still = b })
    | inr early ↦ rw (e, early) (later (ground arith))
  ]
]

-- The loop ends with the acknowledgements, in time.
wait_acks-Ended :
    (peers : Peers) (ack_timeout rounds : ℕ) (nic : Nic) (old : Acks)
    → Answers nic
    → ack_timeout ≤ nic.clock + span nic.hz rounds
    → Ended (wait_acks peers ack_timeout (suc rounds) nic old)
unfolding span
wait_acks-Ended peers t zero nic old a le =
    wait_acks-step peers t zero nic old a (λ lt. absurd (omega arith))
wait_acks-Ended peers t (suc rounds) nic old a le =
    wait_acks-step peers t (suc rounds) nic old a (λ lt.
      wait_acks-Ended peers t rounds (pause peers 1000 nic) (read_acks nic old)
        (pause-Answers peers 1000 nic a)
        (omega (arith, pause-clock peers nic, ap (λ h. span h rounds) (pause-hz peers 1000 nic))))

wr_state_lem :
    (nic : Nic) (v : ℕ)
    → Answers nic
    → IsAcked nic
    → ((wr_reg nic dev_state v).regs dev_state ≡ u32 v) × IsAcked (wr_reg nic dev_state v)
unfolding wr_reg
wr_state_lem nic v a k = rw a.state_answers (update_self nic.regs dev_state (u32 v), k)

-- When the registers of the state, of the acknowledgements and of the presence can be accessed,
-- whatever the other functions do and however late a sleep ends, the loop of
-- qla83xx_need_reset_handler ends in a number of rounds that is one more than the reset timeout
-- in seconds, and at its end the device is cold, and every function that is present has
-- acknowledged or the presence is what was acknowledged.
pub need_reset_handler-IsAcked :
    (peers : Peers) (nic : Nic)
    → Answers nic
    → ((need_reset_handler peers nic).1 ≡ true)
      × ((need_reset_handler peers nic).0.regs dev_state ≡ dev_cold)
      × IsAcked ((need_reset_handler peers nic).0)
unfolding need_reset_handler
need_reset_handler-IsAcked peers nic a =
    let w =
      wait_acks-Ended peers (nic.clock + nic.reset_timeout * nic.hz) nic.reset_timeout nic
        (record { acks = peers.unset; present = peers.unset }) a
        (omega (arith, span-mul nic.hz nic.reset_timeout)) in
    let (cold, k) =
      wr_state_lem
        (wait_acks peers (nic.clock + nic.reset_timeout * nic.hz) (suc nic.reset_timeout) nic
          (record { acks = peers.unset; present = peers.unset })).0
        dev_cold w.still w.acked in
    (w.ended, cold, k)

pub wr_reg_answers : (nic : Nic) (addr v : ℕ) → (wr_reg nic addr v).answers ≡ nic.answers
unfolding wr_reg
wr_reg_answers nic addr v = ground arith

time_out_answers : (nic : Nic) (a : Acks) → (time_out nic a).answers ≡ nic.answers
unfolding time_out
time_out_answers nic a = ground (arith, wr_reg_answers nic drv_presence a.acks)

wait_acks_answers_step :
    (peers : Peers) (t rounds : ℕ) (nic : Nic) (old : Acks)
    → (wait_acks peers t rounds (pause peers 1000 nic) (read_acks nic old)).0.answers ≡ nic.answers
    → (time_out nic (read_acks nic old)).answers ≡ nic.answers
    → (wait_acks peers t (suc rounds) nic old).0.answers ≡ nic.answers
unfolding wait_acks
wait_acks_answers_step peers t rounds nic old rest out =
    elim (Bool-cases (all_acked (read_acks nic old))) [
      | inl e ↦ rw e refl
      | inr e ↦ elim (Bool-cases (leb t nic.clock)) [
        | inl late ↦ rw (e, late) out
        | inr early ↦ rw (e, early) rest
      ]
    ]

wait_acks_answers :
    (peers : Peers) (ack_timeout rounds : ℕ) (nic : Nic) (old : Acks)
    → (wait_acks peers ack_timeout rounds nic old).0.answers ≡ nic.answers
unfolding wait_acks pause
wait_acks_answers peers t zero nic old = refl
wait_acks_answers peers t (suc rounds) nic old =
    let rest = wait_acks_answers peers t rounds (pause peers 1000 nic) (read_acks nic old) in
    let out = time_out_answers nic (read_acks nic old) in
    wait_acks_answers_step peers t rounds nic old rest out

pub need_reset_handler_answers :
    (peers : Peers) (nic : Nic) → (need_reset_handler peers nic).0.answers ≡ nic.answers
unfolding need_reset_handler
need_reset_handler_answers peers nic =
    let t = nic.clock + nic.reset_timeout * nic.hz in
    let old : Acks = record { acks = peers.unset; present = peers.unset } in
    let waited = (wait_acks peers t (suc nic.reset_timeout) nic old).0 in
    wr_reg_answers waited dev_state dev_cold
    ∙ wait_acks_answers peers t (suc nic.reset_timeout) nic old
