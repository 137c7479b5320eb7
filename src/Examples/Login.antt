-- ===== src/Examples/Login.antt =====
-- The theorems about logins at concrete inputs, and runs of the code.
use scst_qla2xxx.Base.{
  suc, ◌||◌, ℕ, ◌≡◌, ◌≢◌, ◌==◌, ◌⊎◌, refl, false, none, some, [], if◌then◌else◌, arith,
}
use scst_qla2xxx.Base.Bitmap.{first_zero}
use scst_qla2xxx.Vport.Control.{function_failed}
use scst_qla2xxx.Adapter.{set_fcport}
use scst_qla2xxx.Login.{
  Fabric, Answer, Trying, is_reserved_id, set_reserved_loop_ids, loop_id_of, set_loop_id,
  find_new_loop_id, other_id, logged_in, next_id, on_answer, login_round, login_turn, login_rounds,
  fabric_login, local_device_login, port_id_used, loop_id_used, command_complete,
  command_parameter_error,
}
use scst_qla2xxx.Login.Ids.{
  IsReady, set_reserved_loop_ids-IsReady, Found, NotFound, find_new_loop_id_lem,
}
use scst_qla2xxx.Login.Ends.{fabric_login_total}
use scst_qla2xxx.Login.Keep.{fabric_login-IsReady}
use scst_qla2xxx.Examples.{adapter, chip_24xx}

-- A chip before ISP24xx, with the ids 0 to 0x81 marked, and 0x83.
abbrev fabric : Fabric
fabric = record {
  adapter = record adapter { chip = record chip_24xx { fwi2_capable = false } };
  loop_id_map = λ i. (i == 0x81) || (i == 0x83);
  max_fibre_devices = 512;
  max_loop_id = 0x7D;
  infos = λ i. record { initiator = false; fcp2_device = false; class2 = false; class3 = false };
  logins = 0;
  logouts = [];
}

fabric-IsReady : IsReady (set_reserved_loop_ids fabric)
fabric-IsReady = set_reserved_loop_ids-IsReady fabric (omega arith)

find_new_loop_id_lem_example :
    (((find_new_loop_id (set_reserved_loop_ids fabric) 0).1 ≡ 0)
      × Found
          (set_reserved_loop_ids fabric)
          (find_new_loop_id (set_reserved_loop_ids fabric) 0).0
          0)
    ⊎ (((find_new_loop_id (set_reserved_loop_ids fabric) 0).1 ≡ function_failed)
        × NotFound
            (set_reserved_loop_ids fabric)
            (find_new_loop_id (set_reserved_loop_ids fabric) 0).0
            0)
find_new_loop_id_lem_example = find_new_loop_id_lem (set_reserved_loop_ids fabric) 0 fabric-IsReady

-- The ids are in use up to 0x82; a target is logged in.
abbrev busy_ids : ℕ → ℕ → Answer
busy_ids n id = record {
  rval = 0;
  mb0 = if n == 0 then loop_id_used else command_complete;
  mb1 = 2;
  mb10 = 2;
}

busy_ids_never : (n id : ℕ) → (busy_ids n id).mb0 ≢ port_id_used
busy_ids_never n id = ground arith

fabric_login_total_example :
    (r : Trying × ℕ) × (fabric_login busy_ids 0
        (suc (set_reserved_loop_ids fabric).max_fibre_devices)
        (set_reserved_loop_ids fabric)
        0
      ≡ some r)
unfolding set_reserved_loop_ids
fabric_login_total_example =
    fabric_login_total busy_ids 0 (set_reserved_loop_ids fabric) 0 (omega arith) busy_ids_never

abbrev logged : Trying
unfolding fabric_login set_reserved_loop_ids
logged = elim (fabric_login busy_ids 0 3 (set_reserved_loop_ids fabric) 0) [
  | none ↦ record { fabric = fabric; retry = 0; tmp_loopid = 0; next_loopid = 0 }
  | some r ↦ r.0
]

logs_in : fabric_login busy_ids 0 3 (set_reserved_loop_ids fabric) 0 ≡ some (logged, 0)
unfolding fabric_login login_rounds login_turn login_round on_answer next_id find_new_loop_id
    first_zero is_reserved_id set_loop_id set_fcport logged_in set_reserved_loop_ids
logs_in = refl

fabric_login-IsReady_example : IsReady logged.fabric
fabric_login-IsReady_example =
    fabric_login-IsReady busy_ids 0 3 (set_reserved_loop_ids fabric) 0 0 logged fabric-IsReady
      logs_in

-- An id that the switch names is not marked, and is found again for the next port.
abbrev taken : Trying
unfolding other_id
taken =
    other_id 0 (record { rval = 0; mb0 = port_id_used; mb1 = 0x82; mb10 = 0 })
      (record { fabric = fabric; retry = 0; tmp_loopid = 0; next_loopid = 0 })

given_twice :
    loop_id_of (find_new_loop_id (set_reserved_loop_ids taken.fabric) 1).0 1
    ≡ loop_id_of taken.fabric 0
unfolding other_id find_new_loop_id first_zero is_reserved_id set_loop_id set_fcport
    set_reserved_loop_ids
given_twice = refl

-- A local device that is not known.
unknown_device :
    local_device_login (record { rval = 0; mb0 = command_parameter_error; mb1 = 0; mb10 = 0 }) ≡ 3
unfolding local_device_login
unknown_device = refl
