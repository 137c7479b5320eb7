-- ===== src/Idc/Core/Done.antt =====
-- What a reset that succeeds leaves (Idc/Core).
use scst_qla2xxx.Base.{
  ℕ, zero, suc, ◌≡◌, ◌∙◌, ◌⊎◌, inl, inr, refl, ap, true, false, Option, none, some, ◌&&◌, ◌==◌,
  bit_or, arith, if◌then◌else◌, ==_iff,
}
use scst_qla2xxx.Base.Options.{Each, Each-intro, Each-elim, Each-map, if-Each}
use scst_qla2xxx.Vport.Control.{function_failed}
use scst_qla2xxx.Idc.{
  Nic, Peers, rd_reg, wr_reg, pause, set_drv_ack, clear_drv_ack, clear_own_bit, set_own_bit,
  audit_timestamp, own_bit, dev_need_reset, dev_state, drv_ack, dev_ready, dev_quiescent,
  idc_control,
}
use scst_qla2xxx.Base.Words.{has}
use scst_qla2xxx.Idc.Reset.Acked.{wr_reg_answers}
use scst_qla2xxx.Idc.Owner.{reset_ownership}
use scst_qla2xxx.Idc.Handler.{idc_state_handler}
use scst_qla2xxx.Idc.Handler.Outcome.{
  Outcome, is_ready, is_quiescent, is_failed, idc_state_handler-Outcome,
}
use scst_qla2xxx.Idc.Core.{
  initiating_reset, ask_reset, wait_not_ready, acknowledge, settle, perform, nic_core_reset,
}

-- The device works again, or is quiescent on this function's behalf.
pub record Done (nic : Nic) : Type 0 where
  pub works :
      (nic.regs dev_state ≡ dev_ready)
      ⊎ ((nic.regs dev_state ≡ dev_quiescent) × (nic.quiesce_owner ≡ true))
  pub not_hung : nic.hung ≡ false

-- Registers can still be accessed after each step.
reset_ownership_answers :
    (peers : Peers) (nic : Nic) → (reset_ownership peers nic).answers ≡ nic.answers
unfolding reset_ownership
reset_ownership_answers peers nic = ground arith

wait_not_ready_answers :
    (peers : Peers) (rounds : ℕ) (nic : Nic) (state : ℕ)
    → Each (λ n. n.answers ≡ nic.answers) (wait_not_ready peers rounds nic state)
unfolding wait_not_ready pause
wait_not_ready_answers peers zero nic state = tt
wait_not_ready_answers peers (suc rounds) nic state =
    let slept = pause peers 200 nic in
    if-Each (λ n. n.answers ≡ nic.answers) (state == dev_ready) _ (some nic)
      (λ e. wait_not_ready_answers peers rounds slept (rd_reg slept dev_state state)) (λ e. refl)

ask_reset_answers : (nic : Nic) → (ask_reset nic).answers ≡ nic.answers
unfolding ask_reset audit_timestamp
ask_reset_answers nic = wr_reg_answers _ _ _ ∙ wr_reg_answers nic dev_state dev_need_reset

set_drv_ack_answers : (nic : Nic) → (set_drv_ack nic).answers ≡ nic.answers
unfolding set_drv_ack set_own_bit
set_drv_ack_answers nic =
    ground (arith, wr_reg_answers nic drv_ack (bit_or (nic.regs drv_ack) (own_bit nic)))

acknowledge_answers :
    (nic : Nic) (o : Option Nic)
    → Each (λ n. n.answers ≡ nic.answers) o
    → Each (λ r. r.0.answers ≡ nic.answers) (acknowledge o)
unfolding acknowledge
acknowledge_answers nic none e = tt
acknowledge_answers nic (some n) e = set_drv_ack_answers n ∙ e

initiating_reset_answers :
    (peers : Peers) (fuel : ℕ) (nic : Nic)
    → Each (λ r. r.0.answers ≡ nic.answers) (initiating_reset peers fuel nic)
unfolding initiating_reset
initiating_reset_answers peers fuel nic =
    let state = rd_reg nic dev_state peers.unset in
    let off = has (rd_reg nic idc_control peers.unset) 1 in
    let owns = nic.reset_owner && (state == dev_ready) in
    let asked = acknowledge (some (ask_reset nic)) in
    let waited = acknowledge (wait_not_ready peers fuel nic state) in
    let same : Nic × ℕ → Type 0 = λ r. r.0.answers ≡ nic.answers in
    if-Each same off (some (nic, function_failed)) (if owns then asked else waited) (λ e. refl)
      (λ e.
        if-Each same owns asked waited
          (λ e. acknowledge_answers nic (some (ask_reset nic)) (ask_reset_answers nic))
          (λ e. acknowledge_answers nic _ (wait_not_ready_answers peers fuel nic state)))

clear_drv_ack_lem :
    (nic : Nic)
    → ((clear_drv_ack nic).regs dev_state ≡ nic.regs dev_state)
      × ((clear_drv_ack nic).hung ≡ nic.hung)
      × ((clear_drv_ack nic).quiesce_owner ≡ nic.quiesce_owner)
unfolding clear_drv_ack clear_own_bit wr_reg
clear_drv_ack_lem nic = ground arith

-- What a result of 0 comes with.
abbrev IsDone : Nic × ℕ → Type 0
IsDone r = r.1 ≡ 0 → Done r.0

Outcome-Done :
    (n : Nic) (r : ℕ) → r ≡ 0 → Outcome n r → Done (clear_drv_ack (record n { hung = false }))
Outcome-Done n r z (is_ready e state own) =
    let (same, hung, own) = clear_drv_ack_lem (record n { hung = false }) in
    record { works = inl (same ∙ state); not_hung = hung }
Outcome-Done n r z (is_quiescent e state own) =
    let (same, hung, owner) = clear_drv_ack_lem (record n { hung = false }) in
    record { works = inr (same ∙ state, owner ∙ own); not_hung = hung }
Outcome-Done n r z (is_failed e gone off) = absurd (omega (arith, z, e))

settle-IsDone : (o : Option (Nic × ℕ)) → Each (λ r. Outcome r.0 r.1) o → Each IsDone (settle o)
unfolding settle
settle-IsDone none e = tt
settle-IsDone (some (n, r)) e = λ z. rw ((==_iff r 0).1 z) (Outcome-Done n r z e)

handled-IsDone :
    (peers : Peers) (fuel : ℕ) (nic : Nic)
    → nic.answers dev_state ≡ true
    → Each IsDone (settle (idc_state_handler peers fuel nic))
handled-IsDone peers fuel nic a = settle-IsDone (idc_state_handler peers fuel nic) (
    Each-intro (λ r. Outcome r.0 r.1) (idc_state_handler peers fuel nic)
      (λ r e. idc_state_handler-Outcome peers fuel nic r.0 r.1 a e))

perform-IsDone :
    (peers : Peers) (fuel : ℕ) (o : Option (Nic × ℕ))
    → Each (λ r. r.0.answers dev_state ≡ true) o
    → Each IsDone (perform peers fuel o)
unfolding perform
perform-IsDone peers fuel none e = tt
perform-IsDone peers fuel (some (n, r)) e =
    if-Each IsDone (r == 0) (settle (idc_state_handler peers fuel n)) (some (n, r))
      (λ z. handled-IsDone peers fuel n e) (λ z p. absurd (ground arith))

-- When the register of the state can be accessed, and whatever the other functions do, a
-- qla83xx_nic_core_reset that returns 0 within the rounds given leaves a device that is ready, or
-- is quiescent on this function's behalf, and the flag nic_core_hung cleared.
pub nic_core_reset-Done :
    (peers : Peers) (fuel : ℕ) (nic nic' : Nic)
    → nic.answers dev_state ≡ true
    → nic_core_reset peers fuel nic ≡ some (nic', 0)
    → Done nic'
unfolding nic_core_reset
nic_core_reset-Done peers fuel nic nic' a e =
    let owner = reset_ownership peers nic in
    let same = ap (λ f. f dev_state) (reset_ownership_answers peers nic) ∙ a in
    let begun =
      Each-map (λ r. r.0.answers ≡ owner.answers) (λ r. r.0.answers dev_state ≡ true)
        (initiating_reset peers fuel owner) (λ r p. ap (λ f. f dev_state) p ∙ same)
        (initiating_reset_answers peers fuel owner) in
    let each : Each IsDone (nic_core_reset peers fuel nic) =
      if-Each IsDone nic.device_failed (some (nic, function_failed)) _ (λ e p. absurd (omega arith))
        (λ e.
          if-Each IsDone _ (some (nic, function_failed)) _ (λ e p. absurd (omega arith))
            (λ e. perform-IsDone peers fuel _ begun)) in
    Each-elim IsDone (nic_core_reset peers fuel nic) each e refl
