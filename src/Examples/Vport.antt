-- ===== src/Examples/Vport.antt =====
-- The theorems about virtual ports at concrete inputs, and runs of the code.
use scst_qla2xxx.Base.{
  ℕ, ◌<◌, ◌≡◌, ◌↔◌, ◌⊎◌, ◌==◌, ◌&&◌, refl, Bool, true, false, none, some, [], ◌∷◌, arith,
}
use scst_qla2xxx.Base.Bitmap.{first_zero}
use scst_qla2xxx.Adapter.{device_lost}
use scst_qla2xxx.Adapter.Lost.{mark_all_devices_lost}
use scst_qla2xxx.Adapter.Lost.All.{mark_all_devices_lost_lem}
use scst_qla2xxx.Vport.{Hosts, loop_up, set_vha}
use scst_qla2xxx.Vport.Ids.{allocate_vp_id, take_vp_id, deallocate_vp_id, remove}
use scst_qla2xxx.Vport.Control.{
  VpIo, issued, disable_vp, mark_vp_devices_dead, vp_ctrl, control_vp, control_status, enable_vp,
  modify_vp_config, modified, vp_config, set_fc_vport, fabric_is_up, disable_vps_logo_all,
}
use scst_qla2xxx.Vport.Create.{
  Request, vpc_unsupported, new_vha, sanity_check, create_vhost, with_id, publish, named, equip,
  find_vhost_by_name, find_in, same_bytes,
}
use scst_qla2xxx.Vport.Port.{
  Outside, vport_create, vport_disable, checked, with_host, added_vport, initial_states,
  choose_queue, create_failed, vp_stop_timer, unlink, retire,
}
use scst_qla2xxx.Vport.Book.{listed, uses, ids}
use scst_qla2xxx.Vport.Dead.{disable_vp_lem}
use scst_qla2xxx.Vport.Owners.{owner, Turn}
use scst_qla2xxx.Vport.Reach.{Valid, Step, create, Reach, here, next}
use scst_qla2xxx.Vport.Reach.Whole.{Step-Turn, Reach-Valid, sanity_check_full}
use scst_qla2xxx.Vport.Queues.{
  Queues, ReqIo, ReqArgs, create_req_que, delete_req_que, new_req, init_req, add_req,
  alloc_outstanding_cmds,
}
use scst_qla2xxx.Vport.Queues.Keep.{
  IsConsistent, SameMaps, AddedReq, create_req_que_lem, delete_req_que-create_req_que,
}
use scst_qla2xxx.Examples.{adapter}

-- The physical port is the host 0; there are ids for two virtual ports.
abbrev hosts : Hosts
hosts = record {
  adapter = adapter;
  hosts = λ h. record new_vha { vp_idx = 0; port_name = h ∷ []; loop_state = loop_up };
  base = 0;
  vp_idx_map = λ j. j == 0;
  vp_list = 0 ∷ [];
  num_vhosts = 0;
  max_npiv_vports = 2;
  cur_vport_count = 0;
  npiv_supported = true;
  switch_cap = 1024;
  current_topology = 8;
  t10_pi_capable = false;
  max_fibre_devices = 512;
}

abbrev io : VpIo
io = record {
  control = λ c. issued 0 0 0;
  modify = λ c. issued 0 0 0;
  send_change_request = λ i. 0;
  configure_vhba = 0;
}

-- The mid layer accepts the host `h` or not.
abbrev outside : ℕ → Bool → Outside
outside h added = record {
  u64_to_wwn = λ n. n ∷ [];
  params = record { ql2xenabledif = 0; ql2xmaxlun = 255 };
  host = some h;
  added = added;
  queues = record {
    cpu_affinity_enabled = false;
    ql2xmaxqueues = 1;
    npiv_info = none;
    create_req_que = λ qos. 0;
  };
}

abbrev asked : ℕ → Request
asked n = record { initiator = true; port_name = n; node_name = n }

hosts-Valid : Valid hosts
unfolding new_vha uses listed
hosts-Valid = record {
  book = record {
    word = omega arith;
    used = λ j. ground arith;
    bounded = λ j e. ground arith;
    base_listed = refl;
    base_id = refl;
    counted = refl;
  };
  current = omega arith;
}

abbrev one_port : Hosts
one_port = (vport_create (outside 1 true) io hosts (asked 1) false).0

one_port-Step : Step hosts one_port
unfolding listed
one_port-Step = create (outside 1 true) io (asked 1) false refl refl

one_port-Reach : Reach hosts one_port
one_port-Reach = next here one_port-Step

Reach-Valid_example : Valid one_port
Reach-Valid_example = Reach-Valid hosts-Valid one_port-Reach

Step-Turn_example : Turn 2 (owner hosts) (owner one_port)
Step-Turn_example = Step-Turn hosts one_port hosts-Valid one_port-Step

refused_role :
    sanity_check (λ n. n ∷ []) one_port (record (asked 2) { initiator = false }) ≡ vpc_unsupported
unfolding sanity_check
refused_role = refl

sanity_check_full_example : (false && one_port.npiv_supported) ≡ false
sanity_check_full_example =
    sanity_check_full (λ n. n ∷ []) hosts one_port (record (asked 2) { initiator = false })
      hosts-Valid one_port-Reach refused_role

disable_vp_lem_example : ((disable_vp io one_port 1).1 ≡ true) ↔ (
    (0 < ids one_port 1)
    × (ids one_port 1 < one_port.max_npiv_vports)
    × (io.control (vp_ctrl disable_vps_logo_all (ids one_port 1)) ≡ issued 0 0 0))
disable_vp_lem_example = disable_vp_lem io one_port 1

mark_all_devices_lost_lem_example :
    ((mark_all_devices_lost 0 adapter (4 ∷ 5 ∷ []) true).fcports 5).state ≡ device_lost
mark_all_devices_lost_lem_example = mark_all_devices_lost_lem 0 adapter (4 ∷ 5 ∷ []) true 5

-- Two ids, both taken; the check still passes a third port, which then gets no host.
abbrev two_ports : Hosts
two_ports = (vport_create (outside 2 true) io one_port (asked 2) false).0

-- The port with the greatest id is created, and cannot be disabled.
greatest : (disable_vp io two_ports 2).1 ≡ false
unfolding vport_create disable_vp control_vp control_status vp_ctrl checked with_host added_vport
    vport_disable enable_vp create_vhost sanity_check with_id publish named new_vha equip
    allocate_vp_id take_vp_id first_zero find_vhost_by_name find_in same_bytes initial_states
    choose_queue set_vha modify_vp_config modified vp_config set_fc_vport fabric_is_up
greatest = refl

-- A port that the mid layer does not accept stays counted.
still_counted :
    ((vport_create (outside 1 false) io hosts (asked 1) false).0.num_vhosts ≡ 0)
    × ((vport_create (outside 1 false) io hosts (asked 1) false).0.cur_vport_count ≡ 1)
unfolding vport_create disable_vp control_vp control_status vp_ctrl checked with_host added_vport
    create_failed deallocate_vp_id remove create_vhost sanity_check with_id publish named new_vha
    equip allocate_vp_id take_vp_id first_zero find_vhost_by_name find_in same_bytes initial_states
    set_vha mark_vp_devices_dead
still_counted = (refl, refl)

-- A port is created between the two parts of a deletion: both have the id 1, and the bit is cleared
-- while the new port has it.
abbrev between : Hosts
between = (vport_create (outside 3 true) io (unlink io one_port 1) (asked 3) false).0

cleared_in_use :
    (((retire between 1).hosts 3).vp_idx ≡ 1)
    × ((retire between 1).vp_idx_map 1 ≡ false)
    × ((retire between 1).vp_list ≡ 0 ∷ 3 ∷ [])
unfolding unlink vp_stop_timer retire vport_create disable_vp control_vp control_status vp_ctrl
    checked with_host added_vport vport_disable enable_vp create_vhost sanity_check with_id publish
    named new_vha equip allocate_vp_id take_vp_id first_zero find_vhost_by_name find_in same_bytes
    initial_states choose_queue set_vha modify_vp_config modified vp_config set_fc_vport
    fabric_is_up deallocate_vp_id remove mark_vp_devices_dead
cleared_in_use = (refl, refl, refl)

abbrev queues : Queues
queues = record {
  req_qid_map = λ j. j == 0;
  req_q_map = λ j. none;
  max_req_queues = 4;
  rsp_qid_map = λ j. j == 0;
  rsp_q_map = λ j. none;
  max_rsp_queues = 4;
  msix_enabled = true;
  msix_nack_capable = true;
}

queues-IsConsistent : IsConsistent queues
queues-IsConsistent = record { base_used = refl; absent = λ j e. refl; word = omega arith }

abbrev req_io : ReqIo
req_io = record {
  have_req = true;
  have_ring = true;
  slots = record {
    present = false;
    num_outstanding_cmds = 0;
    fwi2_capable = true;
    multiqueue = true;
    fw_xcb_count = 0;
    fw_iocb_count = 0;
    kzalloc = λ n. true;
  };
  init = λ req. 0;
}

abbrev req_args : ReqArgs
req_args = record { options = 0; vp_idx = 1; rid = 0; rsp_que = some 0; qos = 3 }

create_req_que_lem_example :
    (((create_req_que req_io queues req_args).1 ≡ 0)
      × SameMaps queues ((create_req_que req_io queues req_args).0))
    ⊎ AddedReq queues
        ((create_req_que req_io queues req_args).0)
        ((create_req_que req_io queues req_args).1)
create_req_que_lem_example = create_req_que_lem req_io queues req_args queues-IsConsistent

created_id : (create_req_que req_io queues req_args).1 ≡ 1
unfolding create_req_que init_req new_req first_zero alloc_outstanding_cmds
created_id = refl

created_at :
    (create_req_que req_io queues req_args).0.req_q_map (create_req_que req_io queues req_args).1
    ≡ some (new_req req_args 1 1024)
unfolding create_req_que init_req new_req first_zero alloc_outstanding_cmds add_req
created_at = refl

deleted :
    (delete_req_que
      (λ req. 0)
      ((create_req_que req_io queues req_args).0)
      (new_req req_args 1 1024)).1
    ≡ 0
unfolding delete_req_que
deleted = refl

delete_req_que-create_req_que_example : SameMaps queues (
    (delete_req_que
      (λ req. 0)
      ((create_req_que req_io queues req_args).0)
      (new_req req_args 1 1024)).0)
delete_req_que-create_req_que_example =
    delete_req_que-create_req_que req_io queues req_args (λ req. 0) (new_req req_args 1 1024)
      queues-IsConsistent (omega (arith, created_id)) created_at deleted
