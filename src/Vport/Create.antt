-- ===== src/Vport/Create.antt =====
-- Creation and deletion of virtual ports: qla24xx_find_vhost_by_name,
-- qla24xx_vport_create_req_sanity_check and qla24xx_create_vhost (drivers/scsi/qla2xxx/qla_mid.c),
-- qla24xx_vport_create and qla24xx_vport_delete (qla_attr.c).
use scst_qla2xxx.Base.{
  ℕ, ◌+◌, Bool, true, false, Option, none, some, List, [], ◌∷◌, not, ◌&&◌, ltb, ◌==◌, if◌then◌else◌,
}
use scst_qla2xxx.Base.Mem.{update}
use scst_qla2xxx.Base.Words.{has, u16}
use scst_qla2xxx.Vport.{Hosts, Vha, loop_unset, loop_down, offline, unknown, unkwn, set_vha}
use scst_qla2xxx.Vport.Ids.{allocate_vp_id}
use scst_qla2xxx.Vport.Control.{loop_down_time}

-- memcmp gives 0
unfoldable pub same_bytes : List ℕ → List ℕ → Bool
same_bytes [] [] = true
same_bytes (x ∷ xs) (y ∷ ys) = let rest = same_bytes xs ys in (x == y) && rest
same_bytes _ _ = false

unfoldable pub find_in : (ℕ → Vha) → List ℕ → List ℕ → Option ℕ
unfolding same_bytes
find_in hosts [] name = none
find_in hosts (h ∷ hs) name =
    let rest = find_in hosts hs name in if same_bytes name (hosts h).port_name then some h else rest

unfoldable pub find_vhost_by_name : Hosts → List ℕ → Option ℕ
unfolding find_in
find_vhost_by_name hw name = find_in hw.hosts hw.vp_list name

-- `struct fc_vport`, what the transport asks for; the names are numbers of 64 bits.
pub record Request : Type 0 where
  pub initiator : Bool
  pub port_name : ℕ
  pub node_name : ℕ

-- VPCERR_UNSUPPORTED, VPCERR_NO_FABRIC_SUPP, VPCERR_BAD_WWN
pub data VpcErr : Type 0 where
  vpc_ok vpc_unsupported vpc_no_fabric_supp vpc_bad_wwn : VpcErr

-- `u64_to_wwn` of the kernel gives the eight bytes of a name. FLOGI_MID_SUPPORT is bit 10.
unfoldable pub sanity_check : (u64_to_wwn : ℕ → List ℕ) → Hosts → Request → VpcErr
unfolding find_vhost_by_name same_bytes
sanity_check u64_to_wwn hw asked =
    let name = u64_to_wwn asked.port_name in
    if not asked.initiator
    then vpc_unsupported
    else if not hw.npiv_supported
    then vpc_unsupported
    else if not (has hw.switch_cap 1024)
    then vpc_no_fabric_supp
    else if same_bytes name (hw.hosts hw.base).port_name
    then vpc_bad_wwn
    else elim (find_vhost_by_name hw name) [
      | some h ↦ vpc_bad_wwn
      | none ↦ if ltb hw.max_npiv_vports hw.num_vhosts then vpc_unsupported else vpc_ok
    ]

-- The module's parameters ql2xenabledif and ql2xmaxlun.
pub record Params : Type 0 where
  pub ql2xenabledif : ℕ
  pub ql2xmaxlun : ℕ

-- What qla2x00_create_host gives: a host that is all 0 but for its list of ports.
unfoldable pub new_vha : Vha
new_vha = record {
  vp_idx = 0;
  port_name = [];
  node_name = [];
  vp_fcports = [];
  loop_state = loop_unset;
  loop_down_timer = 0;
  vp_state = offline;
  vp_err_state = unkwn;
  vp_prev_err_state = unkwn;
  vp_scr_needed = false;
  abort_isp_active = false;
  online = false;
  init_done = false;
  delete_progress = false;
  management_server_logged_in = false;
  timer_active = false;
  mgmt_svr_loop_id = 0;
  req = 0;
  host = record {
    can_queue = 0;
    cmd_per_lun = 0;
    max_cmd_len = 0;
    max_channel = 0;
    max_lun = 0;
    max_id = 0;
  };
  fc_vport = unknown;
}

-- The fields that are set once the id is there, in the order of the code.
unfoldable pub equip : Params → Hosts → ℕ → Vha → Vha
equip params hw vp_id vha =
    let que = (hw.hosts hw.base).req in
    record vha {
      mgmt_svr_loop_id = u16 (10 + vp_id);
      vp_scr_needed = true;
      abort_isp_active = false;
      loop_state = loop_down;
      loop_down_timer = loop_down_time;
      timer_active = true;
      req = que;
      host = record {
        can_queue = (hw.adapter.req_q_map que).length + 128;
        cmd_per_lun = 3;
        max_cmd_len = if hw.t10_pi_capable && not (params.ql2xenabledif == 0) then 32 else 16;
        max_channel = 0;
        max_lun = params.ql2xmaxlun;
        max_id = hw.max_fibre_devices;
      };
      init_done = true;
    }

-- The host once it has an id.
unfoldable pub publish : Params → Hosts → ℕ → ℕ → Hosts
unfolding set_vha equip
publish params hw h vp_id =
    record (set_vha hw h (equip params hw vp_id (record (hw.hosts h) { vp_idx = vp_id }))) {
      vp_idx_map = update hw.vp_idx_map vp_id true;
      cur_vport_count = hw.cur_vport_count + 1;
    }

-- A new host with the names that the transport asks for.
unfoldable pub named : (u64_to_wwn : ℕ → List ℕ) → Request → Vha
unfolding new_vha
named u64_to_wwn asked = record new_vha {
  node_name = u64_to_wwn asked.node_name;
  port_name = u64_to_wwn asked.port_name;
}

-- What follows qla24xx_allocate_vp_id, whose id is beyond the maximum when there is none.
unfoldable pub with_id : Params → Hosts → ℕ → ℕ → Hosts × Option ℕ
unfolding set_vha publish
with_id params hw h vp_id =
    if ltb hw.max_npiv_vports (u16 vp_id)
    then (set_vha hw h (record (hw.hosts h) { vp_idx = u16 vp_id }), none)
    else (publish params hw h (u16 vp_id), some h)

-- `h` is the pointer that scsi_host_alloc gave. The result is whether the host is returned.
unfoldable pub create_vhost :
    (u64_to_wwn : ℕ → List ℕ) → Params → Hosts → Request → Option ℕ → Hosts × Option ℕ
unfolding set_vha named with_id
create_vhost u64_to_wwn params hw asked none = (hw, none)
create_vhost u64_to_wwn params hw asked (some h) =
    let (hw', vp_id) = allocate_vp_id (set_vha hw h (named u64_to_wwn asked)) h in
    with_id params hw' h vp_id
