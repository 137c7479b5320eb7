-- ===== src/Adapter/Lost/Port.antt =====
-- What becomes of the port (Adapter/Lost).
use scst_qla2xxx.Base.{
  refl, ap, inl, inr, Bool-cases, ==_iff, ℕ, ◌≡◌, Bool, false, arith, not, ◌&&◌, ◌||◌, ◌==◌,
  if◌then◌else◌,
}
use scst_qla2xxx.Adapter.{Adapter, PortState, device_lost, device_dead, set_fcport}
use scst_qla2xxx.Adapter.Lost.{
  set_fcport_state, schedule_rport_del, is_online, is_dead, lose_if_online, lose_unless_dead,
  retry_login, mark_device_lost, wake_dpc,
}

-- The ports other than `i`.
abbrev KeepsPorts : Adapter → Adapter → ℕ → Type 0
KeepsPorts ha ha' i = (k : ℕ) → k == i ≡ false → ha'.fcports k ≡ ha.fcports k

set_fcport_state_others :
    (ha : Adapter) (i : ℕ) (s : PortState) → KeepsPorts ha (set_fcport_state ha i s) i
unfolding set_fcport_state set_fcport
set_fcport_state_others ha i s k ne = ground arith

schedule_rport_del_others :
    (ha : Adapter) (i : ℕ) (d : Bool) → KeepsPorts ha (schedule_rport_del ha i d) i
unfolding schedule_rport_del set_fcport wake_dpc
schedule_rport_del_others ha i d k ne = ground arith

retry_login_others : (ha : Adapter) (i : ℕ) → KeepsPorts ha (retry_login ha i) i
unfolding retry_login set_fcport
retry_login_others ha i k ne = ground arith

lose_if_online_others :
    (vp : ℕ) (ha : Adapter) (i : ℕ) (d : Bool) → KeepsPorts ha (lose_if_online vp ha i d) i
unfolding lose_if_online
lose_if_online_others vp ha i d k ne = ground (
  arith,
  set_fcport_state_others ha i device_lost k ne,
  schedule_rport_del_others (set_fcport_state ha i device_lost) i d k ne,
)

lose_unless_dead_others : (ha : Adapter) (i : ℕ) → KeepsPorts ha (lose_unless_dead ha i) i
unfolding lose_unless_dead
lose_unless_dead_others ha i k ne = ground (arith, set_fcport_state_others ha i device_lost k ne)

mark_device_lost_others :
    (vp : ℕ) (ha : Adapter) (i : ℕ) (do_login defer : Bool)
    → KeepsPorts ha (mark_device_lost vp ha i do_login defer) i
unfolding mark_device_lost
mark_device_lost_others vp ha i do_login defer k ne =
    let first = lose_if_online vp ha i defer in
    let lost = lose_unless_dead first i in
    ground (
      arith,
      set_fcport_state_others ha i device_lost k ne,
      schedule_rport_del_others (set_fcport_state ha i device_lost) i defer k ne,
      lose_if_online_others vp ha i defer k ne,
      lose_unless_dead_others first i k ne,
      retry_login_others lost i k ne,
    )

-- What the steps leave of the adapter and, but for its state, of the port.
record Same (ha ha' : Adapter) (i : ℕ) : Type 0 where
  pub same_retry : (ha'.fcports i).login_retry ≡ (ha.fcports i).login_retry
  pub same_count : ha'.login_retry_count ≡ ha.login_retry_count
  pub same_relogin : ha'.dpc_flags.relogin_needed ≡ ha.dpc_flags.relogin_needed

set_fcport_state_lem :
    (ha : Adapter) (i : ℕ) (s : PortState)
    → Same ha (set_fcport_state ha i s) i × (((set_fcport_state ha i s).fcports i).state ≡ s)
unfolding set_fcport_state set_fcport
set_fcport_state_lem ha i s = ground arith

schedule_rport_del_lem :
    (ha : Adapter) (i : ℕ) (d : Bool)
    → Same ha (schedule_rport_del ha i d) i
      × (((schedule_rport_del ha i d).fcports i).state ≡ (ha.fcports i).state)
unfolding schedule_rport_del set_fcport wake_dpc
schedule_rport_del_lem ha i d = ground arith

-- The state after the first step: a port that is not online keeps it.
lose_if_online_lem :
    (vp : ℕ) (ha : Adapter) (i : ℕ) (d : Bool)
    → Same ha (lose_if_online vp ha i d) i
      × (((lose_if_online vp ha i d).fcports i).state ≡ (
          if is_online (ha.fcports i).state && (vp == (ha.fcports i).vp_idx)
          then device_lost
          else (ha.fcports i).state))
unfolding lose_if_online
lose_if_online_lem vp ha i d = ground (
  arith,
  set_fcport_state_lem ha i device_lost,
  schedule_rport_del_lem (set_fcport_state ha i device_lost) i d,
)

lose_unless_dead_lem :
    (ha : Adapter) (i : ℕ)
    → Same ha (lose_unless_dead ha i) i
      × (((lose_unless_dead ha i).fcports i).state
          ≡ (if is_dead (ha.fcports i).state then (ha.fcports i).state else device_lost))
unfolding lose_unless_dead
lose_unless_dead_lem ha i = ground (arith, set_fcport_state_lem ha i device_lost)

retry_login_state :
    (ha : Adapter) (i : ℕ) → ((retry_login ha i).fcports i).state ≡ (ha.fcports i).state
unfolding retry_login set_fcport
retry_login_state ha i = ground arith

retry_login_lem :
    (ha : Adapter) (i : ℕ)
    → (((retry_login ha i).fcports i).login_retry ≡ (
        if (ha.fcports i).login_retry == 0
        then ha.login_retry_count
        else (ha.fcports i).login_retry))
      × ((retry_login ha i).dpc_flags.relogin_needed
          ≡ ((ha.fcports i).login_retry == 0) || ha.dpc_flags.relogin_needed)
unfolding retry_login set_fcport
retry_login_lem ha i = ground arith

-- Whether qla2x00_mark_device_lost is to ask for a login.
abbrev pub asks_login : Adapter → ℕ → Bool → Bool
asks_login ha i do_login = not ha.chip.qlafx00 && do_login && ((ha.fcports i).login_retry == 0)

-- The port itself.
mark_device_lost_own :
    (vp : ℕ) (ha : Adapter) (i : ℕ) (do_login defer : Bool)
    → (((mark_device_lost vp ha i do_login defer).fcports i).state ≡ (
        if not ha.chip.qlafx00 && is_dead (ha.fcports i).state then device_dead else device_lost))
      × (((mark_device_lost vp ha i do_login defer).fcports i).login_retry
          ≡ (if asks_login ha i do_login then ha.login_retry_count else (ha.fcports i).login_retry))
      × ((mark_device_lost vp ha i do_login defer).dpc_flags.relogin_needed
          ≡ asks_login ha i do_login || ha.dpc_flags.relogin_needed)
unfolding mark_device_lost
mark_device_lost_own vp ha i do_login defer =
    let first = lose_if_online vp ha i defer in
    let lost = lose_unless_dead first i in
    ground (
      arith,
      set_fcport_state_lem ha i device_lost,
      schedule_rport_del_lem (set_fcport_state ha i device_lost) i defer,
      lose_if_online_lem vp ha i defer,
      lose_unless_dead_lem first i,
      retry_login_state lost i,
      retry_login_lem lost i,
    )

-- After qla2x00_mark_device_lost for a port, whatever its state and the wishes of the caller, the
-- port is in the state "lost", except that a dead one stays dead on chips other than QLAFX00; a
-- login is asked for newly exactly if the chip is not QLAFX00, the caller wants one and the
-- port's retry counter is 0, and then the counter starts again from the count of the adapter; all
-- other counters, and the states of all other ports, are kept.
pub mark_device_lost_lem :
    (vp : ℕ) (ha : Adapter) (i k : ℕ) (do_login defer : Bool)
    → (((mark_device_lost vp ha i do_login defer).fcports k).state ≡ (
        if k == i
        then (if not ha.chip.qlafx00 && is_dead (ha.fcports i).state
            then device_dead
            else device_lost)
        else (ha.fcports k).state))
      × (((mark_device_lost vp ha i do_login defer).fcports k).login_retry ≡ (
          if (k == i) && asks_login ha i do_login
          then ha.login_retry_count
          else (ha.fcports k).login_retry))
      × ((mark_device_lost vp ha i do_login defer).dpc_flags.relogin_needed
          ≡ asks_login ha i do_login || ha.dpc_flags.relogin_needed)
mark_device_lost_lem vp ha i k do_login defer =
    let (state, retry, relogin) = mark_device_lost_own vp ha i do_login defer in
    elim (Bool-cases (k == i)) [
      | inl e ↦
          let same = (==_iff k i).0 e in rw (same, (==_iff i i).1 refl) (state, retry, relogin)
      | inr e ↦
          let kept = mark_device_lost_others vp ha i do_login defer k e in
          rw e (ap (λ p. p.state) kept, ap (λ p. p.login_retry) kept, relogin)
    ]
