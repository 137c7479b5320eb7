-- ===== src/Adapter/Lost/All.antt =====
-- What becomes of the other ports (Adapter/Lost), and of all ports when the loop goes down.
use scst_qla2xxx.Base.{
  ℕ, ◌≡◌, ◌≢◌, ◌∙◌, refl, Bool, true, false, List, [], ◌∷◌, arith, ◌&&◌, ◌||◌, ◌==◌, if◌then◌else◌,
  ℕ_discrete, ap, sym,
}
use scst_qla2xxx.Adapter.{Adapter, FcPort, PortState, device_lost, set_fcport}
use scst_qla2xxx.Adapter.Lost.{
  set_fcport_state, schedule_rport_del, is_online, lose_if_online, lose_unless_dead, retry_login,
  mark_device_lost, wake_dpc, lose_port_of, mark_all_devices_lost,
}

module _ (ha : Adapter) (i j : ℕ) (ne : i ≢ j) where
  set_fcport-others : (p : FcPort) → (set_fcport ha i p).fcports j ≡ ha.fcports j
  unfolding set_fcport
  set_fcport-others p = ground arith

  set_fcport_state-others : (s : PortState) → (set_fcport_state ha i s).fcports j ≡ ha.fcports j
  unfolding set_fcport_state
  set_fcport_state-others s = set_fcport-others _

  schedule_rport_del-others : (d : Bool) → (schedule_rport_del ha i d).fcports j ≡ ha.fcports j
  unfolding schedule_rport_del wake_dpc
  schedule_rport_del-others d =
      ground (arith, set_fcport-others (record (ha.fcports i) { drport = true }))

  retry_login-others : (retry_login ha i).fcports j ≡ ha.fcports j
  unfolding retry_login
  retry_login-others =
      ground
        (arith, set_fcport-others (record (ha.fcports i) { login_retry = ha.login_retry_count }))

  lose_unless_dead-others : (lose_unless_dead ha i).fcports j ≡ ha.fcports j
  unfolding lose_unless_dead
  lose_unless_dead-others = ground (arith, set_fcport_state-others device_lost)

module _ (vp_idx : ℕ) (ha : Adapter) (i j : ℕ) (ne : i ≢ j) where
  deleted-others :
      (d : Bool)
      → (schedule_rport_del (set_fcport_state ha i device_lost) i d).fcports j ≡ ha.fcports j
  deleted-others d =
      schedule_rport_del-others (set_fcport_state ha i device_lost) i j ne d
      ∙ set_fcport_state-others ha i j ne device_lost

  lose_if_online-others : (d : Bool) → (lose_if_online vp_idx ha i d).fcports j ≡ ha.fcports j
  unfolding lose_if_online
  lose_if_online-others d = ground (arith, deleted-others d)

  -- The other ports are kept.
  pub mark_device_lost-others :
      (login d : Bool) → (mark_device_lost vp_idx ha i login d).fcports j ≡ ha.fcports j
  unfolding mark_device_lost
  mark_device_lost-others login d =
      let first = lose_if_online vp_idx ha i d in
      let lost = lose_unless_dead first i in
      ground (
        arith,
        deleted-others d,
        lose_if_online-others d,
        lose_unless_dead-others first i j ne,
        retry_login-others lost i j ne,
      )

  lose_port_of-others : (d : Bool) → (lose_port_of vp_idx d ha i).fcports j ≡ ha.fcports j
  unfolding lose_port_of
  lose_port_of-others d =
      ground (arith, deleted-others d, set_fcport_state-others ha i j ne device_lost)

-- The host is the physical port, or the port is its own.
abbrev pub is_own : ℕ → FcPort → Bool
is_own vp_idx port = (vp_idx == 0) || (vp_idx == port.vp_idx)

abbrev after : ℕ → FcPort → PortState
after vp_idx port = if is_own vp_idx port && is_online port.state then device_lost else port.state

-- The state of the port, and the host that it belongs to.
record Became (ha : Adapter) (i : ℕ) (s : PortState) (vp_idx : ℕ) : Type 0 where
  state_is : (ha.fcports i).state ≡ s
  vp_idx_is : (ha.fcports i).vp_idx ≡ vp_idx

set_fcport_state-Became :
    (ha : Adapter) (i : ℕ) (s : PortState)
    → Became (set_fcport_state ha i s) i s (ha.fcports i).vp_idx
unfolding set_fcport_state set_fcport
set_fcport_state-Became ha i s = ground arith

schedule_rport_del-Became :
    (ha : Adapter) (i : ℕ) (d : Bool)
    → Became (schedule_rport_del ha i d) i (ha.fcports i).state (ha.fcports i).vp_idx
unfolding schedule_rport_del set_fcport wake_dpc
schedule_rport_del-Became ha i d = ground arith

lose_port_of-Became :
    (vp_idx : ℕ) (ha : Adapter) (i : ℕ) (d : Bool)
    → Became (lose_port_of vp_idx d ha i) i (after vp_idx (ha.fcports i)) (ha.fcports i).vp_idx
unfolding lose_port_of
lose_port_of-Became vp_idx ha i d =
    let lost = set_fcport_state ha i device_lost in
    let one = set_fcport_state-Became ha i device_lost in
    let two = schedule_rport_del-Became lost i d in ground arith

lose_port_of-at :
    (vp_idx : ℕ) (ha : Adapter) {i j : ℕ} (d : Bool)
    → i ≡ j
    → Became (lose_port_of vp_idx d ha i) j (after vp_idx (ha.fcports j)) (ha.fcports j).vp_idx
lose_port_of-at vp_idx ha {i} {j} d e = rw (sym e) (lose_port_of-Became vp_idx ha i d)

-- To lose a port twice is to lose it once.
lost_twice :
    (b own : Bool) (s s' : PortState)
    → s' ≡ (if own && is_online s then device_lost else s)
    → (if b && (own && is_online s') then device_lost else s')
      ≡ (if own && is_online s then device_lost else s)
lost_twice b own s s' e = ground arith

abbrev pub is_in : ℕ → List ℕ → Bool
is_in j [] = false
is_in j (i ∷ is) = (i == j) || is_in j is

-- After qla2x00_mark_all_devices_lost a port is in the state "lost" if it is in the list, was
-- online and belongs to the host or the host is the physical port, and in the state that it had
-- otherwise, in whatever order and however often the list names the ports.
pub mark_all_devices_lost_lem :
    (vp_idx : ℕ) (ha : Adapter) (ports : List ℕ) (defer : Bool) (j : ℕ)
    → ((mark_all_devices_lost vp_idx ha ports defer).fcports j).state ≡ (
        if is_in j ports && (is_own vp_idx (ha.fcports j) && is_online (ha.fcports j).state)
        then device_lost
        else (ha.fcports j).state)
unfolding mark_all_devices_lost
mark_all_devices_lost_lem vp_idx ha [] defer j = refl
mark_all_devices_lost_lem vp_idx ha (i ∷ ports) defer j =
    let ha' = lose_port_of vp_idx defer ha i in
    let rest = mark_all_devices_lost_lem vp_idx ha' ports defer j in
    elim (ℕ_discrete i j) [
      | yes e ↦
          let at = lose_port_of-at vp_idx ha defer e in
          let twice =
            lost_twice (is_in j ports) (is_own vp_idx (ha.fcports j)) (ha.fcports j).state
              (ha'.fcports j).state at.state_is in
          let own : is_own vp_idx (ha'.fcports j) ≡ is_own vp_idx (ha.fcports j) =
            ap (λ n. (vp_idx == 0) || (vp_idx == n)) at.vp_idx_is in
          let self : (i == j) ≡ true = ground arith in rw self (rest ∙ rw own twice)
      | no ne ↦ ground (arith, lose_port_of-others vp_idx ha i j ne defer)
    ]
