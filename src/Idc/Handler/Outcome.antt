-- ===== src/Idc/Handler/Outcome.antt =====
-- How the state machine ends (Idc/Handler).
use scst_qla2xxx.Base.{
  ℕ, zero, suc, ◌+◌, ◌≡◌, ◌≢◌, ◌∙◌, ◌⊎◌, inl, inr, refl, ap, sym, Bool, true, false, Option, none,
  some, not, ◌&&◌, leb, ◌==◌, arith, if◌then◌else◌, Bool-cases, ==_iff,
}
use mathlib.Core.Path.{subst}
use scst_qla2xxx.Base.Words.{u32}
use scst_qla2xxx.Base.Mem.{update_self}
use scst_qla2xxx.Vport.Control.{function_failed}
use scst_qla2xxx.Idc.{
  Nic, Peers, rd_reg, wr_reg, pause, audit_completion, dev_failed_handler, dev_state, idc_audit_reg,
  idc_control, dev_initializing, dev_ready, dev_failed, dev_quiescent,
}
use scst_qla2xxx.Idc.Reset.{device_bootstrap}
use scst_qla2xxx.Idc.Reset.Acked.{need_reset_handler_answers, wr_reg_answers}
use scst_qla2xxx.Idc.Handler.{
  DevState, ready, cold, initializing, need_reset, need_quiescent, quiescent, failed, bad, unknown,
  decode, Loop, Next, again, exit, deadline, wait, wait_anew, give_up_ownership, bootstrapped,
  reset_done, act, round_of, go_on, rounds, result_of, idc_state_handler,
}

-- The device is ready or quiescent, or it was given up.
pub data Outcome (nic : Nic) (rval : ℕ) : Type 0 where
  is_ready : rval ≡ 0 → nic.regs dev_state ≡ dev_ready → nic.reset_owner ≡ false → Outcome nic rval
  is_quiescent :
      rval ≡ 0 → nic.regs dev_state ≡ dev_quiescent → nic.quiesce_owner ≡ true → Outcome nic rval
  is_failed :
      rval ≡ function_failed → nic.device_failed ≡ true → nic.online ≡ false → Outcome nic rval

-- The register of the state can be read, and a result other than 0 comes with a failed device.
record Inv (l : Loop) : Type 0 where
  readable : l.nic.answers dev_state ≡ true
  result : (l.rval ≡ 0) ⊎ (l.nic.regs dev_state ≡ dev_failed)

-- What a round makes of it.
abbrev Good : Next → Type 0
Good (again l) = Inv l
Good (exit l) = Outcome l.nic l.rval

-- A write to another register keeps the state.
wr_other :
    (nic : Nic) (addr v : ℕ)
    → addr ≢ dev_state
    → ((wr_reg nic addr v).regs dev_state ≡ nic.regs dev_state)
      × ((wr_reg nic addr v).answers ≡ nic.answers)
unfolding wr_reg
wr_other nic addr v ne = ground arith

give_up_ownership_lem :
    (nic : Nic)
    → ((give_up_ownership nic).regs dev_state ≡ nic.regs dev_state)
      × ((give_up_ownership nic).reset_owner ≡ false)
unfolding give_up_ownership audit_completion
give_up_ownership_lem nic = ground (arith, wr_other nic idc_audit_reg)

wait-Good :
    (peers : Peers) (l : Loop)
    → l.nic.answers dev_state ≡ true
    → l.rval ≡ 0
    → Good (wait peers l) × Good (wait_anew peers l)
unfolding wait wait_anew pause
wait-Good peers l a z =
    (record { readable = a; result = inl z }, record { readable = a; result = inl z })

-- Only the state `failed` is decoded to it.
is_failed_state : DevState → Bool
is_failed_state failed = true
is_failed_state _ = false

decode_failed : (s : ℕ) → is_failed_state (decode s) ≡ false → s ≢ dev_failed
unfolding decode is_failed_state
decode_failed s e p = ground arith

decode_ready : (s : ℕ) → decode s ≡ ready → s ≡ dev_ready
unfolding decode
decode_ready s e = ground arith

decode_quiescent : (s : ℕ) → decode s ≡ quiescent → s ≡ dev_quiescent
unfolding decode
decode_quiescent s e = ground arith

-- The result is still 0 in any other state.
zero_result :
    (l : Loop) (s : DevState)
    → Inv l
    → decode (l.nic.regs dev_state) ≡ s
    → is_failed_state s ≡ false
    → l.rval ≡ 0
zero_result l s v e n = elim v.result [
  | inl z ↦ z
  | inr p ↦ absurd (decode_failed (l.nic.regs dev_state) (ap is_failed_state e ∙ n) p)
]

pub wr_state :
    (nic : Nic) (v : ℕ)
    → nic.answers dev_state ≡ true
    → (wr_reg nic dev_state v).regs dev_state ≡ u32 v
unfolding wr_reg
wr_state nic v a = rw a (update_self nic.regs dev_state (u32 v))

bootstrapped-Good :
    (peers : Peers) (l : Loop) → l.nic.answers dev_state ≡ true → Good (bootstrapped peers l)
unfolding bootstrapped device_bootstrap
bootstrapped-Good peers l a =
    let first = wr_reg l.nic dev_state dev_initializing in
    let begun = wr_reg first idc_control 0 in
    let same : begun.answers dev_state ≡ true =
      ap (λ f. f dev_state)
        (wr_reg_answers first idc_control 0 ∙ wr_reg_answers l.nic dev_state dev_initializing)
      ∙ a in
    let restarted = record begun {
      regs = peers.change begun.pauses begun.regs;
      pauses = begun.pauses + 1;
    } in
    let v = if peers.restart l.nic.pauses == 0 then dev_ready else dev_failed in
    record {
      readable = ap (λ f. f dev_state) (wr_reg_answers restarted dev_state v) ∙ same;
      result = elim (Bool-cases (peers.restart l.nic.pauses == 0)) [
        | inl z ↦ inl ((==_iff _ 0).0 z)
        | inr n ↦ inr (wr_state restarted v same ∙ rw n refl)
      ];
    }

reset_done-Good :
    (peers : Peers) (l : Loop)
    → l.nic.answers dev_state ≡ true
    → l.rval ≡ 0
    → Good (reset_done peers l)
unfolding reset_done
reset_done-Good peers l a z = record {
  readable = ap (λ f. f dev_state) (need_reset_handler_answers peers l.nic) ∙ a;
  result = inl z;
}

choose-Good :
    (b : Bool) (x y : Next) → (b ≡ true → Good x) → (b ≡ false → Good y) → Good (if b then x else y)
choose-Good true x y p q = p refl
choose-Good false x y p q = q refl

act-Good :
    (peers : Peers) (s : DevState) (l : Loop)
    → Inv l
    → decode (l.nic.regs dev_state) ≡ s
    → Good (act peers s l)
unfolding act is_failed_state dev_failed_handler
act-Good peers ready l v e =
    let (state, own) = give_up_ownership_lem l.nic in
    is_ready (zero_result l ready v e refl) (state ∙ decode_ready _ e) own
act-Good peers cold l v e =
    choose-Good l.nic.reset_owner (bootstrapped peers l) (wait peers l)
      (λ o. bootstrapped-Good peers l v.readable)
      (λ o. (wait-Good peers l v.readable (zero_result l cold v e refl)).0)
act-Good peers initializing l v e =
    (wait-Good peers l v.readable (zero_result l initializing v e refl)).0
act-Good peers need_reset l v e =
    let z = zero_result l need_reset v e refl in
    choose-Good (not l.nic.dont_reset_hba && l.nic.reset_owner) (reset_done peers l)
      (wait_anew peers l) (λ o. reset_done-Good peers l v.readable z)
      (λ o. (wait-Good peers l v.readable z).1)
act-Good peers need_quiescent l v e =
    (wait-Good peers l v.readable (zero_result l need_quiescent v e refl)).0
act-Good peers quiescent l v e =
    let z = zero_result l quiescent v e refl in
    choose-Good l.nic.quiesce_owner (exit l) (wait_anew peers l)
      (λ o. is_quiescent z (decode_quiescent _ e) o) (λ o. (wait-Good peers l v.readable z).1)
act-Good peers failed l v e = is_failed refl refl refl
act-Good peers bad l v e = (wait-Good peers l v.readable (zero_result l bad v e refl)).0
act-Good peers unknown l v e = is_failed refl refl refl

-- The device as the round's read sees it.
abbrev pub late_nic : Loop → Nic
late_nic l = if leb l.dev_init_timeout l.nic.clock then wr_reg l.nic dev_state dev_failed else l.nic

late_nic-Inv : (l : Loop) (var : ℕ) → Inv l → Inv (record l { nic = late_nic l; var = var })
late_nic-Inv l var v = elim (Bool-cases (leb l.dev_init_timeout l.nic.clock)) [
  | inl e ↦ rw e (record {
    readable = ap (λ f. f dev_state) (wr_reg_answers l.nic dev_state dev_failed) ∙ v.readable;
    result = inr (wr_state l.nic dev_failed v.readable);
  })
  | inr e ↦ rw e (record { readable = v.readable; result = v.result })
]

pub rd_state :
    (nic : Nic) (old : ℕ)
    → nic.answers dev_state ≡ true
    → rd_reg nic dev_state old ≡ nic.regs dev_state
unfolding rd_reg
rd_state nic old a = rw a refl

-- The deadline only turns the state into a failure.
round_of-Good : (peers : Peers) (l : Loop) → Inv l → Good (round_of peers l)
unfolding round_of
round_of-Good peers l v =
    let var = rd_reg (late_nic l) dev_state l.var in
    let v' = late_nic-Inv l var v in
    act-Good peers (decode var) (record l { nic = late_nic l; var = var }) v'
      (ap decode (sym (rd_state (late_nic l) l.var v'.readable)))

go_on-Outcome :
    (rest : Loop → Option Loop) (n : Next) (l' : Loop)
    → ((l : Loop) → Inv l → rest l ≡ some l' → Outcome l'.nic l'.rval)
    → Good n
    → go_on rest n ≡ some l'
    → Outcome l'.nic l'.rval
unfolding go_on
go_on-Outcome rest (again l) l' h g e = h l g e
go_on-Outcome rest (exit l) l' h g e =
    let same : l ≡ l' = ap (λ o. elim o [ none ↦ l | some x ↦ x ]) e in
    subst (λ x. Outcome x.nic x.rval) same g

rounds-Outcome :
    (peers : Peers) (fuel : ℕ) (l l' : Loop)
    → Inv l
    → rounds peers fuel l ≡ some l'
    → Outcome l'.nic l'.rval
unfolding rounds
rounds-Outcome peers zero l l' v e = absurd (ground arith)
rounds-Outcome peers (suc fuel) l l' v e =
    go_on-Outcome (λ x. rounds peers fuel x) (round_of peers l) l'
      (λ x. rounds-Outcome peers fuel x l') (round_of-Good peers l v) e

result_of-Outcome :
    (o : Option Loop) (nic : Nic) (rval : ℕ)
    → ((l : Loop) → o ≡ some l → Outcome l.nic l.rval)
    → result_of o ≡ some (nic, rval)
    → Outcome nic rval
unfolding result_of
result_of-Outcome none nic rval h e = absurd (ground arith)
result_of-Outcome (some l) nic rval h e =
    let got : Nic × ℕ = (l.nic, l.rval) in
    let want : Nic × ℕ = (nic, rval) in
    let same : got ≡ want = ap (λ o. elim o [ none ↦ want | some x ↦ x ]) e in
    subst (λ x. Outcome x.0 x.1) same (h l refl)

-- When the register of the state can be accessed, and whatever the other functions do to it,
-- qla83xx_idc_state_handler ends, if it does within the rounds given, with the result 0 and a
-- device that is ready, and this function not the owner of a reset, or with the result 0 and a
-- device that is quiescent on this function's behalf, or with QLA_FUNCTION_FAILED and a host that
-- is offline with a failed device.
pub idc_state_handler-Outcome :
    (peers : Peers) (fuel : ℕ) (nic nic' : Nic) (rval : ℕ)
    → nic.answers dev_state ≡ true
    → idc_state_handler peers fuel nic ≡ some (nic', rval)
    → Outcome nic' rval
unfolding idc_state_handler
idc_state_handler-Outcome peers fuel nic nic' rval a e =
    let l : Loop = record {
      nic = nic;
      dev_init_timeout = deadline nic;
      rval = 0;
      var = peers.unset;
    } in
    result_of-Outcome (rounds peers fuel l) nic' rval
      (λ l'. rounds-Outcome peers fuel l l' (record { readable = a; result = inl refl })) e
