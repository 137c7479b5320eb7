-- ===== src/Login/Keep.antt =====
-- A fabric login keeps the reserved loop ids marked (Login).
use scst_qla2xxx.Base.{
  inl, inr, ◌+◌, ℕ, zero, suc, ◌≡◌, refl, ap, Bool, true, false, Option, some, ◌==◌, Bool-cases,
}
use scst_qla2xxx.Base.Options.{Each, Each-elim}
use scst_qla2xxx.Adapter.{Chip, set_fcport}
use scst_qla2xxx.Adapter.Lost.Quiet.{mark_device_lost-Quiet}
use scst_qla2xxx.Login.{
  Fabric, Answer, Trying, Turn, again, ended, port_id_used, command_complete, loop_id_used,
  command_error, loop_id_of, set_loop_id, clear_loop_id, find_new_loop_id, fabric_logout, other_id,
  logged_in, next_id, login_failed, login_fatal, on_answer, login_round, login_turn, login_rounds,
  fabric_login,
}
use scst_qla2xxx.Login.Ids.{
  IsReady, Alike, Alike-IsReady, set_loop_id-Alike, find_new_loop_id-IsReady, clear_loop_id-IsReady,
}

abbrev ReadyTurn : Turn → Type 0
ReadyTurn (again t) = IsReady t.fabric
ReadyTurn (ended t rval) = IsReady t.fabric

-- What leaves the map, the kind of chip and the limits as they are.
kept : (f f' : Fabric) → IsReady f → Alike f f' → f'.loop_id_map ≡ f.loop_id_map → IsReady f'
kept f f' r a same = Alike-IsReady f f' r a (λ i res m. rw same m)

other_id-IsReady :
    (port : ℕ) (a : Answer) (t : Trying) → IsReady t.fabric → IsReady (other_id port a t).fabric
unfolding other_id set_loop_id
other_id-IsReady port a t r = kept t.fabric _ r (set_loop_id-Alike t.fabric port a.mb1) refl

logged_in-IsReady :
    (port : ℕ) (a : Answer) (t : Trying) → IsReady t.fabric → IsReady (logged_in port a t).fabric
unfolding logged_in
logged_in-IsReady port a t r =
    kept t.fabric _ r (record { fwi2 = refl; limit = refl; size = refl }) refl

next_id-ReadyTurn : (port : ℕ) (t : Trying) → IsReady t.fabric → ReadyTurn (next_id port t)
unfolding next_id
next_id-ReadyTurn port t r =
    let found = find_new_loop_id-IsReady t.fabric port r in
    elim (Bool-cases ((find_new_loop_id t.fabric port).1 == 0)) [
      | inl e ↦ rw e found
      | inr e ↦ rw e found
    ]

fabric_logout-IsReady : (f : Fabric) (port : ℕ) → IsReady f → IsReady (fabric_logout f port)
unfolding fabric_logout
fabric_logout-IsReady f port r = kept f _ r (record { fwi2 = refl; limit = refl; size = refl }) refl

login_failed-IsReady :
    (port : ℕ) (t : Trying) → IsReady t.fabric → IsReady (login_failed port t).fabric
unfolding login_failed
login_failed-IsReady port t r =
    let f = fabric_logout t.fabric port in
    let chip = (mark_device_lost-Quiet f.adapter.vp_idx f.adapter port true false).same_chip in
    let fwi2 : Chip → Bool = λ c. c.fwi2_capable in
    kept f _ (fabric_logout-IsReady t.fabric port r)
      (record { fwi2 = ap fwi2 chip; limit = refl; size = refl }) refl

login_fatal-IsReady :
    (port : ℕ) (t : Trying) → IsReady t.fabric → IsReady (login_fatal port t).fabric
unfolding login_fatal set_fcport
login_fatal-IsReady port t r =
    let f = clear_loop_id (fabric_logout t.fabric port) port in
    let ready =
      clear_loop_id-IsReady (fabric_logout t.fabric port) port
        (fabric_logout-IsReady t.fabric port r) in
    kept f _ ready (record { fwi2 = refl; limit = refl; size = refl }) refl

on_answer-ReadyTurn :
    (port : ℕ) (a : Answer) (t : Trying) → IsReady t.fabric → ReadyTurn (on_answer port a t)
unfolding on_answer
on_answer-ReadyTurn port a t r = elim (Bool-cases (a.rval == 0)) [
  | inr failed ↦ rw failed r
  | inl ok ↦ rw ok (elim (Bool-cases (a.mb0 == port_id_used)) [
    | inl e ↦ rw e (other_id-IsReady port a t r)
    | inr e1 ↦ rw e1 (elim (Bool-cases (a.mb0 == command_complete)) [
      | inl e ↦ rw e (logged_in-IsReady port a t r)
      | inr e2 ↦ rw e2 (elim (Bool-cases (a.mb0 == loop_id_used)) [
        | inl e ↦ rw e (next_id-ReadyTurn port t r)
        | inr e3 ↦ rw e3 (elim (Bool-cases (a.mb0 == command_error)) [
          | inl e ↦ rw e (login_failed-IsReady port t r)
          | inr e ↦ rw e (login_fatal-IsReady port t r)
        ])
      ])
    ])
  ])
]

login_round-ReadyTurn :
    (chip : ℕ → ℕ → Answer) (port : ℕ) (t : Trying)
    → IsReady t.fabric
    → ReadyTurn (login_round chip port t)
unfolding login_round
login_round-ReadyTurn chip port t r =
    let f = t.fabric in
    let f' : Fabric = record f { logins = f.logins + 1 } in
    on_answer-ReadyTurn port (chip f.logins (loop_id_of f port)) (record t { fabric = f' })
      (kept f f' r (record { fwi2 = refl; limit = refl; size = refl }) refl)

abbrev ReadyResult : Trying × ℕ → Type 0
ReadyResult r = IsReady r.0.fabric

login_turn-Ready :
    (rest : Trying → Option (Trying × ℕ)) (r : Turn)
    → ((t : Trying) → IsReady t.fabric → Each ReadyResult (rest t))
    → ReadyTurn r
    → Each ReadyResult (login_turn rest r)
unfolding login_turn
login_turn-Ready rest (again t) h r = h t r
login_turn-Ready rest (ended t rval) h r = r

login_rounds-Ready :
    (chip : ℕ → ℕ → Answer) (port fuel : ℕ) (t : Trying)
    → IsReady t.fabric
    → Each ReadyResult (login_rounds chip port fuel t)
unfolding login_rounds
login_rounds-Ready chip port zero t r = tt
login_rounds-Ready chip port (suc fuel) t r =
    login_turn-Ready (λ t'. login_rounds chip port fuel t') (login_round chip port t)
      (λ t' r'. login_rounds-Ready chip port fuel t' r') (login_round-ReadyTurn chip port t r)

-- If, on chips before ISP24xx, the reserved loop ids are marked in the map, of fewer than 65536
-- ids, they are marked after a qla2x00_fabric_login that returns, whatever the chip answers and
-- with whatever result.
pub fabric_login-IsReady :
    (chip : ℕ → ℕ → Answer) (port fuel : ℕ) (f : Fabric) (next rval : ℕ) (t : Trying)
    → IsReady f
    → fabric_login chip port fuel f next ≡ some (t, rval)
    → IsReady t.fabric
unfolding fabric_login
fabric_login-IsReady chip port fuel f next rval t r e =
    Each-elim ReadyResult (fabric_login chip port fuel f next)
      (login_rounds-Ready chip port fuel
        (record { fabric = f; retry = 0; tmp_loopid = 0; next_loopid = next }) r)
      e
