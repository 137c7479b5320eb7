-- ===== src/Login/Ends.antt =====
-- A fabric login ends (Login).
use scst_qla2xxx.Base.{
  ℕ, zero, suc, ◌+◌, ◌≤◌, ◌<◌, ◌≡◌, ◌≢◌, ◌∙◌, sym, ap, inl, inr, refl, Bool, true, false, Option,
  some, leb, ltb, ◌==◌, ◌||◌, arith, Bool-cases, ℕ_discrete,
}
use scst_qla2xxx.Base.Words.{u16}
use scst_qla2xxx.Base.Mem.{update, update_self, update_ne}
use scst_qla2xxx.Base.Bitmap.{first_zero, first_zero-le, first_zero-clear, first_zero-set}
use scst_qla2xxx.Login.{
  Fabric, Answer, Trying, Turn, again, ended, port_id_used, command_complete, loop_id_used,
  command_error, loop_id_of, set_loop_id, find_new_loop_id, next_id, on_answer, login_round,
  login_turn, login_rounds, fabric_login, is_reserved_id,
}

abbrev first_free : Fabric → ℕ
first_free f = first_zero f.loop_id_map f.max_fibre_devices 0

-- Once the first free bit is marked, the next one that is free comes later.
first_zero-marked :
    (bits : ℕ → Bool) (n : ℕ)
    → first_zero bits n 0 < n
    → first_zero bits n 0 < first_zero (update bits (first_zero bits n 0) true) n 0
first_zero-marked bits n lt =
    let k = first_zero bits n 0 in
    let next = first_zero (update bits k true) n 0 in
    elim (Bool-cases (ltb k next)) [
      | inl e ↦ ground arith
      | inr e ↦
          let clear = first_zero-clear (update bits k true) n 0 (ground arith) in
          elim (ℕ_discrete k next) [
            | yes p ↦
                absurd (ground (arith, sym (ap (update bits k true) p) ∙ update_self bits k true))
            | no ne ↦
                let set = first_zero-set bits n 0 next (omega arith) (ground arith) in
                absurd (ground (arith, update_ne bits true ne ∙ set))
          ]
    ]

-- A round that goes on has used up an id.
record Goes (t t' : Trying) : Type 0 where
  size : t'.fabric.max_fibre_devices ≡ t.fabric.max_fibre_devices
  later : first_free t.fabric < first_free t'.fabric
  in_range : first_free t.fabric < t.fabric.max_fibre_devices

abbrev Advances : Trying → Turn → Type 0
Advances t (again t') = Goes t t'
Advances t (ended t' rval) = Unit

next_id-Advances :
    (port : ℕ) (t : Trying) → t.fabric.max_fibre_devices < 65536 → Advances t (next_id port t)
unfolding next_id find_new_loop_id set_loop_id
next_id-Advances port t lt =
    let f = t.fabric in
    let (low, high) = first_zero-le f.loop_id_map f.max_fibre_devices 0 in
    let small : u16 (first_free f) ≡ first_free f = ground (arith, lt) in
    rw small
      (elim (Bool-cases
        (leb f.max_fibre_devices (first_free f) || is_reserved_id f (first_free f))) [
          | inl e ↦ rw e tt
          | inr e ↦
              let range : first_free f < f.max_fibre_devices = ground arith in
              rw e (record {
                size = refl;
                later = first_zero-marked f.loop_id_map f.max_fibre_devices range;
                in_range = range;
              })
        ])

on_answer-Advances :
    (port : ℕ) (a : Answer) (t : Trying)
    → a.mb0 ≢ port_id_used
    → t.fabric.max_fibre_devices < 65536
    → Advances t (on_answer port a t)
unfolding on_answer
on_answer-Advances port a t ne lt = elim (Bool-cases (a.rval == 0)) [
  | inr failed ↦ rw failed tt
  | inl ok ↦
      let other : (a.mb0 == port_id_used) ≡ false = ground arith in
      rw (ok, other)
        (elim (Bool-cases (a.mb0 == command_complete)) [
          | inl done ↦ rw done tt
          | inr on ↦ rw on (elim (Bool-cases (a.mb0 == loop_id_used)) [
            | inl used ↦ rw used (next_id-Advances port t lt)
            | inr unused ↦
                rw unused
                  (elim (Bool-cases (a.mb0 == command_error)) [ inl e ↦ rw e tt | inr e ↦ rw e tt ])
          ])
        ])
]

abbrev counted : Trying → Trying
counted t = record t { fabric = record t.fabric { logins = t.fabric.logins + 1 } }

counted-Advances : (t : Trying) (r : Turn) → Advances (counted t) r → Advances t r
counted-Advances t (again t') a = record { size = a.size; later = a.later; in_range = a.in_range }
counted-Advances t (ended t' rval) a = tt

-- The loop ends with a result.
record Ends (o : Option (Trying × ℕ)) : Type 0 where
  result : Trying × ℕ
  ends : o ≡ some result

module _ (chip : ℕ → ℕ → Answer) (port : ℕ)
    (never : (n id : ℕ) → (chip n id).mb0 ≢ port_id_used) where
  login_round-Advances :
      (t : Trying) → t.fabric.max_fibre_devices < 65536 → Advances t (login_round chip port t)
  unfolding login_round
  login_round-Advances t lt =
      let id = loop_id_of t.fabric port in
      let a = chip t.fabric.logins id in
      counted-Advances t (on_answer port a (counted t))
        (on_answer-Advances port a (counted t) (never t.fabric.logins id) lt)

  login_turn-Ends :
      (rest : Trying → Option (Trying × ℕ)) (t : Trying) (r : Turn)
      → Advances t r
      → ((t' : Trying) → Goes t t' → Ends (rest t'))
      → Ends (login_turn rest r)
  unfolding login_turn
  login_turn-Ends rest t (again t') a h = h t' a
  login_turn-Ends rest t (ended t' rval) a h = record { result = (t', rval); ends = refl }

  login_rounds-Ends :
      (n : ℕ) (t : Trying)
      → t.fabric.max_fibre_devices < 65536
      → t.fabric.max_fibre_devices ≤ first_free t.fabric + n
      → Ends (login_rounds chip port (suc n) t)
  unfolding login_rounds
  login_rounds-Ends zero t lt le =
      login_turn-Ends (λ t'. login_rounds chip port zero t') t (login_round chip port t)
        (login_round-Advances t lt) (λ t' g. absurd (omega (arith, g.in_range)))
  login_rounds-Ends (suc n) t lt le =
      login_turn-Ends (λ t'. login_rounds chip port (suc n) t') t (login_round chip port t)
        (login_round-Advances t lt)
        (λ t' g.
          login_rounds-Ends n t' (omega (arith, g.size, lt)) (omega (arith, g.size, g.later)))

-- With fewer than 65536 loop ids, and a switch that never answers that the port has another loop
-- id, qla2x00_fabric_login ends in one round more than there are loop ids.
pub fabric_login_total :
    (chip : ℕ → ℕ → Answer) (port : ℕ) (f : Fabric) (next : ℕ)
    → f.max_fibre_devices < 65536
    → ((n id : ℕ) → (chip n id).mb0 ≢ port_id_used)
    → (r : Trying × ℕ) × (fabric_login chip port (suc f.max_fibre_devices) f next ≡ some r)
unfolding fabric_login
fabric_login_total chip port f next lt never =
    let e =
      login_rounds-Ends chip port never f.max_fibre_devices
        (record { fabric = f; retry = 0; tmp_loopid = 0; next_loopid = next }) lt (omega arith) in
    (e.result, e.ends)
