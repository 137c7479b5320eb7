-- ===== src/Login/Ids.antt =====
-- Loop ids that are found and given back (Login).
use scst_qla2xxx.Base.{
  ℕ, ◌≤◌, ◌<◌, ◌≡◌, ◌≢◌, ◌∙◌, sym, ap, ◌⊎◌, inl, inr, refl, true, false, ◌||◌, leb, ltb, ◌==◌,
  arith, Bool-cases,
}
use scst_qla2xxx.Base.Words.{u16}
use scst_qla2xxx.Base.Mem.{update, update_ne}
use scst_qla2xxx.Base.Bitmap.{first_zero, first_zero-le, first_zero-clear, first_zero-set}
use scst_qla2xxx.Vport.Control.{function_failed}
use scst_qla2xxx.Adapter.{set_fcport}
use scst_qla2xxx.Login.{
  Fabric, no_loop_id, is_reserved_id, set_reserved_loop_ids, loop_id_of, set_loop_id, clear_loop_id,
  find_new_loop_id,
}

-- The reserved ids of chips before ISP24xx are marked.
pub record IsReady (f : Fabric) : Type 0 where
  pub small : f.max_fibre_devices < 65536
  pub reserved :
      f.adapter.chip.fwi2_capable ≡ false
      → (i : ℕ) → is_reserved_id f i ≡ true
      → f.loop_id_map i ≡ true

pub set_reserved_loop_ids-IsReady :
    (f : Fabric) → f.max_fibre_devices < 65536 → IsReady (set_reserved_loop_ids f)
unfolding set_reserved_loop_ids is_reserved_id
set_reserved_loop_ids-IsReady f lt = elim (Bool-cases f.adapter.chip.fwi2_capable) [
  | inl e ↦ rw e (record { small = lt; reserved = λ ne. absurd (ground (arith, e)) })
  | inr e ↦ rw e (record { small = lt; reserved = λ ne i r. ground arith })
]

-- What a search does: the id that is found was free and not reserved, and is marked now; none is found
-- if no such id is there.
pub record Found (f f' : Fabric) (port : ℕ) : Type 0 where
  pub id : ℕ
  pub free : f.loop_id_map id ≡ false
  pub allowed : is_reserved_id f id ≡ false
  pub in_range : id < f.max_fibre_devices
  pub marked : f'.loop_id_map ≡ update f.loop_id_map id true
  pub given : loop_id_of f' port ≡ id

pub record NotFound (f f' : Fabric) (port : ℕ) : Type 0 where
  pub same : f'.loop_id_map ≡ f.loop_id_map
  pub without : loop_id_of f' port ≡ no_loop_id
  pub none_free :
      (i : ℕ) → i < f.max_fibre_devices → is_reserved_id f i ≡ false → f.loop_id_map i ≡ true

abbrev first_free : Fabric → ℕ
first_free f = first_zero f.loop_id_map f.max_fibre_devices 0

-- The first free id is reserved only if all later ones are.
reserved_after :
    (f : Fabric) (i j : ℕ)
    → IsReady f
    → f.loop_id_map i ≡ false
    → is_reserved_id f i ≡ true
    → i ≤ j
    → is_reserved_id f j ≡ true
unfolding is_reserved_id
reserved_after f i j r free res le = elim (Bool-cases f.adapter.chip.fwi2_capable) [
  | inl e ↦ ground (arith, e)
  | inr e ↦ absurd (ground (arith, r.reserved e i res))
]

set_loop_id_lem :
    (f : Fabric) (port id : ℕ)
    → id < 65536
    → (loop_id_of (set_loop_id f port id) port ≡ id)
      × ((set_loop_id f port id).loop_id_map ≡ f.loop_id_map)
unfolding set_loop_id set_fcport
set_loop_id_lem f port id lt = (ground arith, refl)

none_free :
    (f : Fabric) (i : ℕ)
    → IsReady f
    → (leb f.max_fibre_devices (first_free f) || is_reserved_id f (first_free f)) ≡ true
    → i < f.max_fibre_devices
    → is_reserved_id f i ≡ false
    → f.loop_id_map i ≡ true
none_free f i r e lt allowed =
    let (low, high) = first_zero-le f.loop_id_map f.max_fibre_devices 0 in
    elim (Bool-cases (ltb i (first_free f))) [
      | inl before ↦
          first_zero-set f.loop_id_map f.max_fibre_devices 0 i (omega arith) (ground arith)
      | inr after ↦
          let res : is_reserved_id f (first_free f) ≡ true = ground arith in
          let free = first_zero-clear f.loop_id_map f.max_fibre_devices 0 (ground arith) in
          absurd (ground (arith, reserved_after f (first_free f) i r free res (ground arith)))
    ]

-- With fewer than 65536 loop ids and, on chips before ISP24xx, the reserved ids marked in the
-- map, qla2x00_find_new_loop_id either gives the port an id in range that was neither marked nor
-- reserved, and marks it, or fails, leaves the map as it was and the port without an id, and then
-- every id in range that is not reserved is marked.
pub find_new_loop_id_lem :
    (f : Fabric) (port : ℕ)
    → IsReady f
    → (((find_new_loop_id f port).1 ≡ 0) × Found f (find_new_loop_id f port).0 port)
      ⊎ (((find_new_loop_id f port).1 ≡ function_failed)
          × NotFound f (find_new_loop_id f port).0 port)
unfolding find_new_loop_id
find_new_loop_id_lem f port r =
    let (low, high) = first_zero-le f.loop_id_map f.max_fibre_devices 0 in
    let small : u16 (first_free f) ≡ first_free f = ground (arith, r.small) in
    rw small
      (elim (Bool-cases
        (leb f.max_fibre_devices (first_free f) || is_reserved_id f (first_free f))) [
          | inl e ↦
              let (without, same) = set_loop_id_lem f port no_loop_id (omega arith) in
              rw e (
                inr (
                  refl,
                  record {
                    same = same;
                    without = without;
                    none_free = λ i lt allowed. none_free f i r e lt allowed;
                  },
                ))
          | inr e ↦
              let (given, same) = set_loop_id_lem f port (first_free f) (omega (arith, r.small)) in
              rw e (
                inl (
                  refl,
                  record {
                    id = first_free f;
                    free = first_zero-clear f.loop_id_map f.max_fibre_devices 0 (ground arith);
                    allowed = ground arith;
                    in_range = ground arith;
                    marked = refl;
                    given = given;
                  },
                ))
        ])

-- What an operation that keeps the kind of chip and the limits does to `IsReady`.
pub record Alike (f f' : Fabric) : Type 0 where
  pub fwi2 : f'.adapter.chip.fwi2_capable ≡ f.adapter.chip.fwi2_capable
  pub limit : f'.max_loop_id ≡ f.max_loop_id
  pub size : f'.max_fibre_devices ≡ f.max_fibre_devices

Alike-reserved : (f f' : Fabric) → Alike f f' → (i : ℕ) → is_reserved_id f' i ≡ is_reserved_id f i
unfolding is_reserved_id
Alike-reserved f f' a i = rw (a.fwi2, a.limit) refl

pub Alike-IsReady :
    (f f' : Fabric)
    → IsReady f
    → Alike f f'
    → ((i : ℕ) → is_reserved_id f i ≡ true → f.loop_id_map i ≡ true → f'.loop_id_map i ≡ true)
    → IsReady f'
Alike-IsReady f f' r a keeps = record {
  small = omega (arith, a.size, r.small);
  reserved = λ ne i e.
      let res = sym (Alike-reserved f f' a i) ∙ e in
      keeps i res (r.reserved (sym a.fwi2 ∙ ne) i res);
}

pub set_loop_id-Alike : (f : Fabric) (port id : ℕ) → Alike f (set_loop_id f port id)
unfolding set_loop_id set_fcport
set_loop_id-Alike f port id = record { fwi2 = refl; limit = refl; size = refl }

-- Searches and releases keep the reserved ids marked.
pub find_new_loop_id-IsReady :
    (f : Fabric) (port : ℕ) → IsReady f → IsReady (find_new_loop_id f port).0
unfolding find_new_loop_id set_loop_id
find_new_loop_id-IsReady f port r =
    let id = u16 (first_free f) in
    elim (Bool-cases (leb f.max_fibre_devices id || is_reserved_id f id)) [
      | inl e ↦ rw e (Alike-IsReady f _ r (set_loop_id-Alike f port no_loop_id) (λ i res m. m))
      | inr e ↦
          let a = set_loop_id-Alike f port id in
          rw e (
            Alike-IsReady f _ r (record { fwi2 = a.fwi2; limit = a.limit; size = a.size })
              (λ i res m. ground (arith, m)))
    ]

pub clear_loop_id-IsReady : (f : Fabric) (port : ℕ) → IsReady f → IsReady (clear_loop_id f port)
unfolding clear_loop_id set_loop_id
clear_loop_id-IsReady f port r =
    let id = loop_id_of f port in
    elim (Bool-cases ((id == no_loop_id) || is_reserved_id f id)) [
      | inl e ↦ rw e r
      | inr e ↦
          let a = set_loop_id-Alike f port no_loop_id in
          rw e (
            Alike-IsReady f _ r (record { fwi2 = a.fwi2; limit = a.limit; size = a.size })
              (λ i res m.
                let other : id ≢ i = λ p. ground (arith, ap (is_reserved_id f) p) in
                update_ne f.loop_id_map false other ∙ m))
    ]
