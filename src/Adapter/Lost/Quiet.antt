-- ===== src/Adapter/Lost/Quiet.antt =====
-- The part of the adapter that Adapter/Lost leaves alone: request queues, completions and the chip.
use scst_qla2xxx.Base.{ℕ, ◌≡◌, ◌∙◌, refl, Bool, true, false, arith, if◌then◌else◌}
use scst_qla2xxx.Adapter.{Adapter, Srb, FcPort, PortState, device_lost, set_fcport, set_srb}
use scst_qla2xxx.Adapter.Lost.{
  set_fcport_state, schedule_rport_del, lose_if_online, lose_unless_dead, retry_login,
  mark_device_lost, set_retry_delay_timestamp,
}

-- The tables of request queues, the list of completions and the kind of chip are kept.
pub record Quiet (ha ha' : Adapter) : Type 0 where
  pub same_queues : ha'.req_q_map ≡ ha.req_q_map
  pub same_completions : ha'.completions ≡ ha.completions
  pub same_chip : ha'.chip ≡ ha.chip

pub Quiet-refl : (ha : Adapter) → Quiet ha ha
Quiet-refl ha = record { same_queues = refl; same_completions = refl; same_chip = refl }

pub Quiet-trans : {a b c : Adapter} → Quiet a b → Quiet b c → Quiet a c
Quiet-trans p q = record {
  same_queues = q.same_queues ∙ p.same_queues;
  same_completions = q.same_completions ∙ p.same_completions;
  same_chip = q.same_chip ∙ p.same_chip;
}

set_fcport-Quiet : (ha : Adapter) (i : ℕ) (p : FcPort) → Quiet ha (set_fcport ha i p)
unfolding set_fcport
set_fcport-Quiet ha i p = record { same_queues = refl; same_completions = refl; same_chip = refl }

pub set_srb-Quiet : (ha : Adapter) (sp : ℕ) (s : Srb) → Quiet ha (set_srb ha sp s)
unfolding set_srb
set_srb-Quiet ha sp s = record { same_queues = refl; same_completions = refl; same_chip = refl }

set_fcport_state-Quiet : (ha : Adapter) (i : ℕ) (s : PortState) → Quiet ha (set_fcport_state ha i s)
unfolding set_fcport_state
set_fcport_state-Quiet ha i s = record {
  same_queues = refl;
  same_completions = refl;
  same_chip = refl;
}

schedule_rport_del-Quiet : (ha : Adapter) (i : ℕ) (d : Bool) → Quiet ha (schedule_rport_del ha i d)
unfolding schedule_rport_del
schedule_rport_del-Quiet ha i d = ground arith

lost_rport-Quiet :
    (ha : Adapter) (i : ℕ) (d : Bool)
    → Quiet ha (schedule_rport_del (set_fcport_state ha i device_lost) i d)
lost_rport-Quiet ha i d =
    Quiet-trans (set_fcport_state-Quiet ha i device_lost) (schedule_rport_del-Quiet _ i d)

choose-Quiet :
    (b : Bool) {ha x y : Adapter} → Quiet ha x → Quiet ha y → Quiet ha (if b then x else y)
choose-Quiet true p q = p
choose-Quiet false p q = q

lose_if_online-Quiet :
    (vp : ℕ) (ha : Adapter) (i : ℕ) (d : Bool) → Quiet ha (lose_if_online vp ha i d)
unfolding lose_if_online
lose_if_online-Quiet vp ha i d = choose-Quiet _ (lost_rport-Quiet ha i d) (Quiet-refl ha)

lose_unless_dead-Quiet : (ha : Adapter) (i : ℕ) → Quiet ha (lose_unless_dead ha i)
unfolding lose_unless_dead
lose_unless_dead-Quiet ha i =
    choose-Quiet _ (Quiet-refl ha) (set_fcport_state-Quiet ha i device_lost)

retry_login-Quiet : (ha : Adapter) (i : ℕ) → Quiet ha (retry_login ha i)
unfolding retry_login
retry_login-Quiet ha i = ground arith

pub mark_device_lost-Quiet :
    (vp : ℕ) (ha : Adapter) (i : ℕ) (l d : Bool) → Quiet ha (mark_device_lost vp ha i l d)
unfolding mark_device_lost
mark_device_lost-Quiet vp ha i l d =
    let lost =
      Quiet-trans (lose_if_online-Quiet vp ha i d)
        (lose_unless_dead-Quiet (lose_if_online vp ha i d) i) in
    choose-Quiet _ (lost_rport-Quiet ha i d)
      (choose-Quiet l (Quiet-trans lost (retry_login-Quiet _ i)) lost)

pub set_retry_delay_timestamp-Quiet :
    (hz : ℕ) (ha : Adapter) (i d : ℕ) → Quiet ha (set_retry_delay_timestamp hz ha i d)
unfolding set_retry_delay_timestamp
set_retry_delay_timestamp-Quiet hz ha i d = ground arith
