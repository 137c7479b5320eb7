-- ===== src/Vport/Frame.antt =====
-- What the operations on virtual ports do to the book of ids: the commands of Vport/Control leave
-- it, and Vport/Create and Vport/Port change it by one host.
use scst_qla2xxx.Base.{ℕ, ◌≡◌, refl, Bool, true, false, not, arith, ◌==◌, if◌then◌else◌}
use scst_qla2xxx.Adapter.{Adapter}
use scst_qla2xxx.Vport.{Hosts, Vha, FcVportState, fc_initializing, fc_failed, set_vha}
use scst_qla2xxx.Vport.Control.{
  VpIo, set_fc_vport, modify_vp_config, disable_vp, enable_vp, configure_vp, vp_abort_isp, Issue,
  no_memory, issued, modified, vp_config, function_failed, fabric_is_up, abort_loop, is_down,
}
use scst_qla2xxx.Vport.Port.{vport_disable, initial_states, vp_stop_timer}
use scst_qla2xxx.Vport.Book.Keep.{Same, Same-refl, Same-trans}

pub set_vha-Same :
    (hw : Hosts) (h : ℕ) (vha : Vha) → vha.vp_idx ≡ (hw.hosts h).vp_idx → Same hw (set_vha hw h vha)
unfolding set_vha
set_vha-Same hw h vha e = record {
  same_id = λ x. ground arith;
  same_map = λ j. refl;
  same_list = refl;
  same_num = refl;
  same_max = refl;
  same_base = refl;
  more_current = omega arith;
}

choose-Same : (b : Bool) {a x y : Hosts} → Same a x → Same a y → Same a (if b then x else y)
choose-Same true p q = p
choose-Same false p q = q

choose-Same0 {κ} :
    {B : Type κ} (b : Bool) {a : Hosts} (x y : Hosts × B)
    → Same a (x.0)
    → Same a (y.0)
    → Same a ((if b then x else y).0)
choose-Same0 true x y p q = p
choose-Same0 false x y p q = q

with_adapter-Same :
    {a : Hosts} (b : Hosts) (ha : Adapter) → Same a b → Same a (record b { adapter = ha })
with_adapter-Same b ha s = record {
  same_id = s.same_id;
  same_map = s.same_map;
  same_list = s.same_list;
  same_num = s.same_num;
  same_max = s.same_max;
  same_base = s.same_base;
  more_current = s.more_current;
}

pub disable_vp-Same : (io : VpIo) (hw : Hosts) (h : ℕ) → Same hw ((disable_vp io hw h).0)
unfolding disable_vp
disable_vp-Same io hw h = with_adapter-Same _ _ (set_vha-Same hw h _ refl)

set_fc_vport-Same : (hw : Hosts) (h : ℕ) (state : FcVportState) → Same hw (set_fc_vport hw h state)
unfolding set_fc_vport
set_fc_vport-Same hw h state = set_vha-Same hw h _ refl

modified-Same : (hw : Hosts) (h : ℕ) (i : Issue) → Same hw ((modified hw h i).0)
unfolding modified
modified-Same hw h no_memory = Same-refl hw
modified-Same hw h (issued rval entry_status comp_status) =
    choose-Same0 (not (rval == 0)) _ _ (Same-refl hw) (
      choose-Same0 (not (comp_status == 0)) (hw, function_failed)
        (set_fc_vport hw h fc_initializing, rval) (Same-refl hw)
        (set_fc_vport-Same hw h fc_initializing))

modify_vp_config-Same : (io : VpIo) (hw : Hosts) (h : ℕ) → Same hw ((modify_vp_config io hw h).0)
unfolding modify_vp_config
modify_vp_config-Same io hw h = modified-Same hw h (io.modify (vp_config (hw.hosts h)))

pub enable_vp-Same : (io : VpIo) (hw : Hosts) (h : ℕ) → Same hw ((enable_vp io hw h).0)
unfolding enable_vp
enable_vp-Same io hw h =
    let same = modify_vp_config-Same io hw h in
    let (hw', ret) = modify_vp_config io hw h in
    choose-Same0 (not (fabric_is_up hw)) _ _ (set_vha-Same hw h _ refl) (
      choose-Same0 (ret == 0) (hw', true) (set_fc_vport hw' h fc_failed, false) same
        (Same-trans same (set_fc_vport-Same _ h fc_failed)))

pub configure_vp-Same : (io : VpIo) (hw : Hosts) (h : ℕ) → Same hw (configure_vp io hw h)
unfolding configure_vp
configure_vp-Same io hw h =
    choose-Same (not (io.send_change_request (hw.hosts h).vp_idx == 0)) (Same-refl hw)
      (set_vha-Same hw h _ (ground arith))

abort_loop-Same : (hw : Hosts) (h : ℕ) → Same hw (abort_loop hw h)
unfolding abort_loop
abort_loop-Same hw h =
    choose-Same (not (is_down (hw.hosts h).loop_state))
      (with_adapter-Same _ _ (set_vha-Same hw h _ refl))
      (choose-Same ((hw.hosts h).loop_down_timer == 0) (set_vha-Same hw h _ refl) (Same-refl hw))

pub vp_abort_isp-Same : (io : VpIo) (hw : Hosts) (h : ℕ) → Same hw ((vp_abort_isp io hw h).0)
unfolding vp_abort_isp
vp_abort_isp-Same io hw h = Same-trans (abort_loop-Same hw h) (enable_vp-Same io _ h)

pub vport_disable-Same :
    (io : VpIo) (hw : Hosts) (h : ℕ) (disable : Bool) → Same hw (vport_disable io hw h disable)
unfolding vport_disable
vport_disable-Same io hw h disable =
    choose-Same disable (disable_vp-Same io hw h) (enable_vp-Same io hw h)

pub initial_states-Same :
    (hw : Hosts) (h : ℕ) (disable : Bool) → Same hw (initial_states hw h disable)
unfolding initial_states
initial_states-Same hw h disable = set_vha-Same hw h _ refl

pub vp_stop_timer-Same : (hw : Hosts) (h : ℕ) → Same hw (vp_stop_timer hw h)
unfolding vp_stop_timer
vp_stop_timer-Same hw h = choose-Same _ (set_vha-Same hw h _ refl) (Same-refl hw)
