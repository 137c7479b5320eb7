-- ===== src/Vport/Port.antt =====
-- The life of a virtual port: qla24xx_vport_create, qla24xx_vport_disable and qla24xx_vport_delete
-- (drivers/scsi/qla2xxx/qla_attr.c), and qla2x00_vp_stop_timer (qla_mid.c).
use scst_qla2xxx.Base.{
  ℕ, ◌-◌, Bool, true, false, Option, none, some, List, [], ◌∷◌, not, ◌&&◌, ◌||◌, ◌==◌,
  if◌then◌else◌,
}
use scst_qla2xxx.Base.Mem.{update}
use scst_qla2xxx.Vport.{
  Hosts, Vha, loop_down, loop_dead, offline, failed, fc_disabled, fc_linkdown, unkwn, portdwn,
  set_vha,
}
use scst_qla2xxx.Vport.Ids.{deallocate_vp_id}
use scst_qla2xxx.Vport.Control.{VpIo, disable_vp, enable_vp, is_down, is_loop_dead}
use scst_qla2xxx.Vport.Create.{
  Request, VpcErr, vpc_ok, Params, same_bytes, sanity_check, create_vhost,
}

unfoldable pub vport_disable : VpIo → Hosts → ℕ → Bool → Hosts
vport_disable io hw h disable = if disable then (disable_vp io hw h).0 else (enable_vp io hw h).0

-- An entry of `npiv_info`.
pub record NpivEntry : Type 0 where
  pub port_name : List ℕ
  pub node_name : List ℕ
  pub q_qos : ℕ

-- How the queue of a virtual port is chosen. `create_req_que` is the result of
-- qla25xx_create_req_que (Vport/Queues) for the quality of service, 0 if it fails.
pub record QueueChoice : Type 0 where
  pub cpu_affinity_enabled : Bool
  pub ql2xmaxqueues : ℕ
  pub npiv_info : Option (List NpivEntry)
  pub create_req_que : ℕ → ℕ

unfoldable pub find_qos : List NpivEntry → Vha → ℕ
find_qos [] vha = 0
find_qos (e ∷ es) vha =
    let rest = find_qos es vha in
    if same_bytes e.port_name vha.port_name && same_bytes e.node_name vha.node_name
    then e.q_qos
    else rest

unfoldable pub choose_queue : QueueChoice → Vha → ℕ
unfolding find_qos
choose_queue q vha =
    if q.cpu_affinity_enabled then 1 else if q.ql2xmaxqueues == 1 then 0 else elim q.npiv_info [
      | none ↦ 0
      | some entries ↦
          let qos = find_qos entries vha in if qos == 0 then 0 else q.create_req_que qos
    ]

-- The states of a new port, which depend on the physical port's.
unfoldable pub initial_states : Hosts → ℕ → Bool → Hosts
unfolding set_vha
initial_states hw h disable =
    let vha = hw.hosts h in
    let base_state = (hw.hosts hw.base).loop_state in
    let link_is_down = is_down base_state || is_loop_dead base_state in
    set_vha hw h (record vha {
      vp_state = if disable then offline else failed;
      loop_state = if link_is_down then loop_dead else loop_down;
      vp_err_state = portdwn;
      vp_prev_err_state = unkwn;
      fc_vport =
          if disable then fc_disabled else if link_is_down then fc_linkdown else vha.fc_vport;
    })

-- "vport_create_failed_2"
unfoldable pub create_failed : VpIo → Hosts → ℕ → Hosts
create_failed io hw h = deallocate_vp_id (disable_vp io hw h).0 h

-- How a creation ends: refused by the checks, without a host, not accepted by the mid layer, or with
-- a port.
pub data Created : Type 0 where
  refused : VpcErr → Created
  no_host not_added : Created
  created : ℕ → Created

-- What comes from outside: the bytes of a name, the parameters, the pointer of a new host, and
-- whether scsi_add_host_with_dma succeeds.
pub record Outside : Type 0 where
  pub u64_to_wwn : ℕ → List ℕ
  pub params : Params
  pub host : Option ℕ
  pub added : Bool
  pub queues : QueueChoice

unfoldable pub added_vport : Outside → VpIo → Hosts → Bool → ℕ → Hosts × Created
unfolding initial_states create_failed vport_disable choose_queue set_vha
added_vport out io hw disable h =
    let begun = initial_states hw h disable in
    if not out.added
    then (create_failed io begun h, not_added)
    else let hw' = vport_disable io begun h disable in
      let vha = hw'.hosts h in
      (set_vha hw' h (record vha { req = choose_queue out.queues vha }), created h)

-- The result of qla24xx_create_vhost, and what follows it.
unfoldable pub with_host : Outside → VpIo → Bool → Hosts × Option ℕ → Hosts × Created
unfolding added_vport
with_host out io disable (hw, none) = (hw, no_host)
with_host out io disable (hw, some h) = added_vport out io hw disable h

unfoldable pub checked : Outside → VpIo → Hosts → Request → Bool → VpcErr → Hosts × Created
unfolding with_host
checked out io hw asked disable vpc_ok =
    with_host out io disable (create_vhost out.u64_to_wwn out.params hw asked out.host)
checked out io hw asked disable err = (hw, refused err)

unfoldable pub vport_create : Outside → VpIo → Hosts → Request → Bool → Hosts × Created
unfolding checked
vport_create out io hw asked disable =
    checked out io hw asked disable (sanity_check out.u64_to_wwn hw asked)

unfoldable pub vp_stop_timer : Hosts → ℕ → Hosts
unfolding set_vha
vp_stop_timer hw h =
    let vha = hw.hosts h in
    if not (vha.vp_idx == 0) && vha.timer_active
    then set_vha hw h (record vha { timer_active = false })
    else hw

-- The second part under `vport_lock`, after the id was given back. On an `int`, which the count is,
-- one less than 0 is -1; here it stays 0.
unfoldable pub retire : Hosts → ℕ → Hosts
retire hw h = record hw {
  cur_vport_count = hw.cur_vport_count - 1;
  vp_idx_map = update hw.vp_idx_map (hw.hosts h).vp_idx false;
}

-- The first part of a deletion, up to the place where no lock is held.
unfoldable pub unlink : VpIo → Hosts → ℕ → Hosts
unfolding set_vha vp_stop_timer
unlink io hw h =
    let off = (disable_vp io hw h).0 in
    let going = set_vha off h (record (off.hosts h) { delete_progress = true }) in
    vp_stop_timer (deallocate_vp_id going h) h

-- The queue of the port is deleted after that (Vport/Queues).
unfoldable pub vport_delete : VpIo → Hosts → ℕ → Hosts
unfolding unlink retire
vport_delete io hw h = retire (unlink io hw h) h
