-- ===== src/Idc/Handler/Timeout.antt =====
-- A device that does not leave a state in which this function waits is given up in time (Idc/Handler).
use scst_qla2xxx.Base.{
  ℕ, zero, suc, ◌+◌, ◌≤◌, ◌≡◌, ◌∙◌, inl, inr, refl, ap, Bool, true, false, Option, some, not, leb,
  arith, Bool-cases,
}
use scst_qla2xxx.Vport.Control.{function_failed}
use scst_qla2xxx.Idc.{Nic, Peers, rd_reg, wr_reg, pause, dev_state, dev_failed}
use scst_qla2xxx.Base.Span.{span, span-mul}
use scst_qla2xxx.Idc.Reset.Acked.{pause-clock, pause-hz, wr_reg_answers}
use scst_qla2xxx.Idc.Handler.{
  DevState, ready, cold, initializing, need_reset, need_quiescent, quiescent, failed, bad, unknown,
  decode, Loop, again, deadline, wait, act, round_of, go_on, rounds, result_of, idc_state_handler,
}
use scst_qla2xxx.Idc.Handler.Outcome.{wr_state, rd_state}

-- The states in which the function only waits.
abbrev pub waits : Bool → DevState → Bool
waits owner initializing = true
waits owner need_quiescent = true
waits owner bad = true
waits owner cold = not owner
waits owner _ = false

act-wait :
    (peers : Peers) (s : DevState) (l : Loop)
    → waits l.nic.reset_owner s ≡ true
    → act peers s l ≡ wait peers l
unfolding act
act-wait peers ready l e = absurd (ground arith)
act-wait peers cold l e = ground arith
act-wait peers initializing l e = refl
act-wait peers need_reset l e = absurd (ground arith)
act-wait peers need_quiescent l e = refl
act-wait peers quiescent l e = absurd (ground arith)
act-wait peers failed l e = absurd (ground arith)
act-wait peers bad l e = refl
act-wait peers unknown l e = absurd (ground arith)

record Waiting (l : Loop) : Type 0 where
  readable : l.nic.answers dev_state ≡ true
  state : waits l.nic.reset_owner (decode (l.nic.regs dev_state)) ≡ true

-- The result of an exit.
record Fails (o : Option Loop) : Type 0 where
  last : Loop
  ends : o ≡ some last
  fails : last.rval ≡ function_failed

round_of-early :
    (peers : Peers) (l : Loop)
    → leb l.dev_init_timeout l.nic.clock ≡ false
    → round_of peers l
      ≡ act peers
          (decode (rd_reg l.nic dev_state l.var))
          (record l { nic = l.nic; var = rd_reg l.nic dev_state l.var })
unfolding round_of
round_of-early peers l e = rw e refl

abbrev given_up : Loop → Nic
given_up l = wr_reg l.nic dev_state dev_failed

round_of-late :
    (peers : Peers) (l : Loop)
    → leb l.dev_init_timeout l.nic.clock ≡ true
    → round_of peers l
      ≡ act peers
          (decode (rd_reg (given_up l) dev_state l.var))
          (record l { nic = given_up l; var = rd_reg (given_up l) dev_state l.var })
unfolding round_of
round_of-late peers l e = rw e refl

act-Fails :
    (peers : Peers) (l : Loop) (rest : Loop → Option Loop) → Fails (go_on rest (act peers failed l))
unfolding act go_on
act-Fails peers l rest = record { last = _; ends = refl; fails = refl }

module _ (peers : Peers)
    (steady : (n : ℕ) (regs : ℕ → ℕ) → peers.change n regs dev_state ≡ regs dev_state) where
  wait-Waiting : (l : Loop) → Waiting l → Waiting (record l { nic = pause peers 1000 l.nic })
  unfolding pause
  wait-Waiting l w = record {
    readable = w.readable;
    state = ap (λ s. waits l.nic.reset_owner (decode s)) (steady l.nic.pauses l.nic.regs) ∙ w.state;
  }

  -- In time, the round waits.
  round_early :
      (l : Loop)
      → Waiting l
      → leb l.dev_init_timeout l.nic.clock ≡ false
      → round_of peers l
        ≡ again (record l { nic = pause peers 1000 l.nic; var = l.nic.regs dev_state })
  unfolding wait
  round_early l w e =
      let rd = rd_state l.nic l.var w.readable in
      round_of-early peers l e
      ∙ rw rd (
          act-wait peers (decode (l.nic.regs dev_state)) (record l { var = l.nic.regs dev_state })
            w.state)

  -- After the deadline, it ends.
  round_late :
      (l : Loop) (rest : Loop → Option Loop)
      → Waiting l
      → leb l.dev_init_timeout l.nic.clock ≡ true
      → Fails (go_on rest (round_of peers l))
  unfolding decode
  round_late l rest w e =
      let still : (given_up l).answers dev_state ≡ true =
        ap (λ f. f dev_state) (wr_reg_answers l.nic dev_state dev_failed) ∙ w.readable in
      let rd : rd_reg (given_up l) dev_state l.var ≡ dev_failed =
        rd_state (given_up l) l.var still ∙ wr_state l.nic dev_failed w.readable in
      rw (round_of-late peers l e, rd) (act-Fails peers _ rest)

  rounds-Fails :
      (r : ℕ) (l : Loop)
      → Waiting l
      → l.dev_init_timeout ≤ l.nic.clock + span l.nic.hz r
      → Fails (rounds peers (suc r) l)
  unfolding rounds span go_on
  rounds-Fails zero l w le = round_late l (λ l'. rounds peers zero l') w (ground arith)
  rounds-Fails (suc r) l w le = elim (Bool-cases (leb l.dev_init_timeout l.nic.clock)) [
    | inl e ↦ round_late l (λ l'. rounds peers (suc r) l') w e
    | inr e ↦
        let l' : Loop = record l { nic = pause peers 1000 l.nic; var = l.nic.regs dev_state } in
        let w' = wait-Waiting l w in
        rw (round_early l w e) (
          rounds-Fails r l' (record { readable = w'.readable; state = w'.state })
            (omega
              (arith, pause-clock peers l.nic, ap (λ h. span h r) (pause-hz peers 1000 l.nic))))
  ]

result_of-Fails : (o : Option Loop) (f : Fails o) → result_of o ≡ some (f.last.nic, function_failed)
unfolding result_of
result_of-Fails o f =
    let pair : ℕ → Option (Nic × ℕ) = λ r. some (f.last.nic, r) in
    ap result_of f.ends ∙ ap pair f.fails

-- When the register of the state can be accessed and the other functions do not change it, and it
-- says that the device is initialising, needs quiescence, has the bad value, or is cold and this
-- function is not the owner, qla83xx_idc_state_handler ends in one round more than its timeout in
-- seconds, with QLA_FUNCTION_FAILED.
pub idc_state_handler_timeout :
    (peers : Peers) (nic : Nic)
    → ((n : ℕ) (regs : ℕ → ℕ) → peers.change n regs dev_state ≡ regs dev_state)
    → nic.answers dev_state ≡ true
    → waits nic.reset_owner (decode (nic.regs dev_state)) ≡ true
    → (nic' : Nic) × (idc_state_handler peers (suc nic.dev_init_timeout) nic
        ≡ some (nic', function_failed))
unfolding idc_state_handler
idc_state_handler_timeout peers nic steady a w =
    let l : Loop = record {
      nic = nic;
      dev_init_timeout = deadline nic;
      rval = 0;
      var = peers.unset;
    } in
    let f =
      rounds-Fails peers steady nic.dev_init_timeout l (record { readable = a; state = w })
        (omega (arith, span-mul nic.hz nic.dev_init_timeout)) in
    (f.last.nic, result_of-Fails _ f)
