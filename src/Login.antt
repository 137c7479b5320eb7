-- ===== src/Login.antt =====
-- Logins and loop ids (drivers/scsi/qla2xxx): qla2x00_set_reserved_loop_ids, qla2x00_is_reserved_id
-- and qla2x00_clear_loop_id (qla_inline.h), qla2x00_find_new_loop_id, qla2x00_fabric_login and
-- qla2x00_local_device_login (qla_init.c).
pub mod Ids
pub mod Ends
pub mod Keep
use scst_qla2xxx.Base.{
  ℕ, zero, suc, ◌+◌, Bool, true, false, Option, none, some, List, ◌∷◌, ◌&&◌, ◌||◌, leb, ltb, ◌==◌,
  if◌then◌else◌,
}
use scst_qla2xxx.Base.Words.{u16, has}
use scst_qla2xxx.Base.Mem.{update}
use scst_qla2xxx.Base.Bitmap.{first_zero}
use scst_qla2xxx.Vport.Control.{function_failed}
use scst_qla2xxx.Adapter.{Adapter, set_fcport}
use scst_qla2xxx.Adapter.Lost.{mark_device_lost}

-- FC_NO_LOOP_ID
abbrev pub no_loop_id : ℕ
no_loop_id = 0x1000

-- MBS_COMMAND_COMPLETE and so on.
abbrev pub command_complete : ℕ
command_complete = 0x4000

abbrev pub command_error : ℕ
command_error = 0x4005

abbrev pub command_parameter_error : ℕ
command_parameter_error = 0x4006

abbrev pub port_id_used : ℕ
port_id_used = 0x4007

abbrev pub loop_id_used : ℕ
loop_id_used = 0x4008

-- What a login learns of a port: `port_type` as whether it is an initiator, the flag FCF_FCP2_DEVICE,
-- and `supported_classes`.
pub record PortInfo : Type 0 where
  pub initiator : Bool
  pub fcp2_device : Bool
  pub class2 : Bool
  pub class3 : Bool

-- The ports are those of the adapter. `logins` counts the commands to the chip, and `logouts` lists
-- the loop ids that were logged out, the newest first.
pub record Fabric : Type 0 where
  pub adapter : Adapter
  pub loop_id_map : ℕ → Bool
  pub max_fibre_devices : ℕ
  pub max_loop_id : ℕ
  pub infos : ℕ → PortInfo
  pub logins : ℕ
  pub logouts : List ℕ

-- What a login command gives: its result and the mailbox registers 0, 1 and 10.
pub record Answer : Type 0 where
  pub rval : ℕ
  pub mb0 : ℕ
  pub mb1 : ℕ
  pub mb10 : ℕ

unfoldable pub set_reserved_loop_ids : Fabric → Fabric
set_reserved_loop_ids f =
    if f.adapter.chip.fwi2_capable
    then f
    else record f { loop_id_map = λ i. ltb i 0x81 || (i == 0xFE) || (i == 0xFF) || f.loop_id_map i }

unfoldable pub is_reserved_id : Fabric → ℕ → Bool
is_reserved_id f id =
    if f.adapter.chip.fwi2_capable
    then ltb 0x7EF id
    else (ltb f.max_loop_id id && ltb id 0x81) || (id == 0xFE) || (id == 0xFF)

abbrev pub loop_id_of : Fabric → ℕ → ℕ
loop_id_of f port = (f.adapter.fcports port).loop_id

unfoldable pub set_loop_id : Fabric → ℕ → ℕ → Fabric
unfolding set_fcport
set_loop_id f port id = record f {
  adapter = set_fcport f.adapter port (record (f.adapter.fcports port) { loop_id = u16 id });
}

unfoldable pub clear_loop_id : Fabric → ℕ → Fabric
unfolding is_reserved_id set_loop_id
clear_loop_id f port =
    let id = loop_id_of f port in
    if (id == no_loop_id) || is_reserved_id f id
    then f
    else record (set_loop_id f port no_loop_id) { loop_id_map = update f.loop_id_map id false }

-- The id that the port had stays marked.
unfoldable pub find_new_loop_id : Fabric → ℕ → Fabric × ℕ
unfolding is_reserved_id set_loop_id
find_new_loop_id f port =
    let id = u16 (first_zero f.loop_id_map f.max_fibre_devices 0) in
    if leb f.max_fibre_devices id || is_reserved_id f id
    then (set_loop_id f port no_loop_id, function_failed)
    else (record (set_loop_id f port id) { loop_id_map = update f.loop_id_map id true }, 0)

-- `isp_ops->fabric_logout`
unfoldable pub fabric_logout : Fabric → ℕ → Fabric
fabric_logout f port = record f { logouts = loop_id_of f port ∷ f.logouts }

-- The variables of the loop of qla2x00_fabric_login.
pub record Trying : Type 0 where
  pub fabric : Fabric
  pub retry : ℕ
  pub tmp_loopid : ℕ
  pub next_loopid : ℕ

-- The loop goes on, or it ends with a result.
pub data Turn : Type 0 where
  again : Trying → Turn
  ended : Trying → ℕ → Turn

-- The device has another loop id, which is tried. The id is not marked in the map.
unfoldable pub other_id : ℕ → Answer → Trying → Trying
unfolding set_loop_id
other_id port a t = record t {
  fabric = set_loop_id t.fabric port a.mb1;
  retry = t.retry + 1;
  tmp_loopid = loop_id_of t.fabric port;
}

-- The login succeeded.
unfoldable pub logged_in : ℕ → Answer → Trying → Trying
logged_in port a t =
    let f = t.fabric in
    let info = f.infos port in
    let next = if t.retry == 0 then u16 (loop_id_of f port + 1) else t.tmp_loopid in
    let fcp2 = has a.mb1 2 || info.fcp2_device in
    record t {
      fabric = record f {
        infos = update f.infos port (record {
          initiator = has a.mb1 1;
          fcp2_device = if has a.mb1 1 then info.fcp2_device else fcp2;
          class2 = has a.mb10 1 || info.class2;
          class3 = has a.mb10 2 || info.class3;
        });
      };
      next_loopid = next;
    }

-- The loop id is in use. The increment of `fcport->loop_id` is overwritten by the search.
unfoldable pub next_id : ℕ → Trying → Turn
unfolding find_new_loop_id
next_id port t =
    let found = find_new_loop_id t.fabric port in
    if found.1 == 0
    then again (record t { fabric = found.0 })
    else ended (record t { fabric = found.0 }) found.1

-- The command failed, or timed out.
unfoldable pub login_failed : ℕ → Trying → Trying
unfolding fabric_logout
login_failed port t =
    let f = fabric_logout t.fabric port in
    record t {
      fabric = record f { adapter = mark_device_lost f.adapter.vp_idx f.adapter port true false };
      next_loopid = loop_id_of t.fabric port;
    }

-- An error that is not handled.
unfoldable pub login_fatal : ℕ → Trying → Trying
unfolding fabric_logout clear_loop_id set_fcport
login_fatal port t =
    let f = clear_loop_id (fabric_logout t.fabric port) port in
    let none_left = record (f.adapter.fcports port) { login_retry = 0 } in
    record t {
      fabric = record f { adapter = set_fcport f.adapter port none_left };
      next_loopid = loop_id_of t.fabric port;
    }

unfoldable pub on_answer : ℕ → Answer → Trying → Turn
unfolding other_id logged_in next_id login_failed login_fatal
on_answer port a t =
    if a.rval == 0
    then (if a.mb0 == port_id_used
        then again (other_id port a t)
        else if a.mb0 == command_complete
        then ended (logged_in port a t) 0
        else if a.mb0 == loop_id_used
        then next_id port t
        else if a.mb0 == command_error
        then ended (login_failed port t) 1
        else ended (login_fatal port t) 3)
    else ended t a.rval

-- One round; `chip` answers the login commands in their order, each for a loop id.
unfoldable pub login_round : (ℕ → ℕ → Answer) → ℕ → Trying → Turn
unfolding on_answer
login_round chip port t =
    let f = t.fabric in
    on_answer port (chip f.logins (loop_id_of f port))
      (record t { fabric = record f { logins = f.logins + 1 } })

unfoldable pub login_turn : (Trying → Option (Trying × ℕ)) → Turn → Option (Trying × ℕ)
login_turn rest (again t) = rest t
login_turn rest (ended t rval) = some (t, rval)

-- The loop, for as many rounds as are given; `none` if it has not ended by then.
unfoldable pub login_rounds : (ℕ → ℕ → Answer) → ℕ → ℕ → Trying → Option (Trying × ℕ)
unfolding login_round login_turn
login_rounds chip port zero t = none
login_rounds chip port (suc fuel) t =
    login_turn (λ t'. login_rounds chip port fuel t') (login_round chip port t)

-- The result with the fabric and `*next_loopid`.
unfoldable pub fabric_login : (ℕ → ℕ → Answer) → ℕ → ℕ → Fabric → ℕ → Option (Trying × ℕ)
unfolding login_rounds
fabric_login chip port fuel f next =
    login_rounds chip port fuel
      (record { fabric = f; retry = 0; tmp_loopid = 0; next_loopid = next })

-- `answer` is what qla2x00_login_local_device gives.
unfoldable pub local_device_login : Answer → ℕ
local_device_login a =
    if a.rval == 0
    then (if a.mb0 == command_error then 1 else if a.mb0 == command_parameter_error then 3 else 0)
    else a.rval
