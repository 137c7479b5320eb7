-- ===== src/Request/Start/Queued.antt =====
-- Room and registration of the commands that Request/Start queues.
use scst_qla2xxx.Base.{
  ℕ, ◌+◌, ◌-◌, ◌%◌, ◌<◌, ◌≤◌, ◌≡◌, ◌≢◌, refl, ap, ◌∙◌, true, false, Option, none, some, arith, ltb,
  if◌then◌else◌, Option-cases, inl, inr,
}
use mathlib.Core.Path.{ap₂}
use native.Mathlib.Nat.{mod-eq_of_lt, mod-eq-sub-mod}
use scst_qla2xxx.Base.Lists.{length}
use scst_qla2xxx.Base.Mem.{update}
use scst_qla2xxx.Request.Queue.{Ring, ReqQue, adjust_ring_index}
use scst_qla2xxx.Request.Handles.{HasSlots, find_handle, find_handle-free}
use scst_qla2xxx.Request.Segments.Outside.{KeepsOthers, Outside-first}
use scst_qla2xxx.Request.Ring.{
  IsRing, advance, store_ne, put_words_ne, ring_index-adjust, adjust_ring_index-IsRing,
}
use scst_qla2xxx.Request.Segments.Count.{Keeps}
use scst_qla2xxx.Request.Room.{make_room}
use scst_qla2xxx.Request.Room.Safe.{Fits, make_room-Fits}
use scst_qla2xxx.Request.Alloc.{clear_entry, start_req}
use scst_qla2xxx.Adapter.{ScsiCmnd, Stats}
use scst_qla2xxx.Request.Start.{dsds, reserve, Flavour, take_entries, queue_command}

-- The queue but for its count.
pub record SameBut (req req' : ReqQue) : Type 0 where
  pub same_ring : req'.ring ≡ req.ring
  pub same_cmds : req'.outstanding_cmds ≡ req.outstanding_cmds
  pub same_length : req'.length ≡ req.length
  pub same_index : req'.ring_index ≡ req.ring_index
  pub same_ptr : req'.ring_ptr ≡ req.ring_ptr

-- Looking for room breaks nothing and changes nothing but the count. If it succeeds, the handle
-- names a free slot, and with the command two entries of the ring at least stay free.
pub record Reserved (need : ℕ) (req : ReqQue) (out used : ℕ) (r : ReqQue × Option ℕ) : Type 0 where
  pub fits : Fits r.0 out used
  pub same : SameBut req r.0
  pub slot :
      (handle : ℕ)
      → r.1 ≡ some handle
      → (0 < handle) × (handle < req.num_outstanding_cmds) × (req.outstanding_cmds handle ≡ none)
  pub room : (handle : ℕ) → r.1 ≡ some handle → (used + need + 2 ≤ req.length) × (need ≤ r.0.cnt)

make_room-SameBut : (req : ReqQue) (need out : ℕ) → SameBut req (make_room req need out).0
unfolding make_room
make_room-SameBut req need out = ground arith

make_room-cnt :
    (req : ReqQue) (need out : ℕ)
    → (make_room req need out).1 ≡ true
    → need ≤ (make_room req need out).0.cnt
unfolding make_room
make_room-cnt req need out e = ground arith

pub reserve-Reserved :
    (calc : ℕ → ℕ) (req : ReqQue) (out used : ℕ) (cmd : ScsiCmnd)
    → Fits req out used
    → HasSlots req
    → Reserved (calc (length (dsds cmd))) req out used (reserve calc req out cmd)
unfolding reserve
reserve-Reserved calc req out used cmd f v =
    let need = calc (length (dsds cmd)) in
    let (f', enough) = make_room-Fits req (need + 2) out used f in
    let same = make_room-SameBut req (need + 2) out in
    let cnt = make_room-cnt req (need + 2) out in
    elim (Option-cases (find_handle req)) [
      | inl e ↦ ground arith
      | inr (h, e) ↦ ground (arith, find_handle-free req v e)
    ]

adjust_same :
    (req : ReqQue)
    → ((adjust_ring_index req).length ≡ req.length)
      × ((adjust_ring_index req).cnt ≡ req.cnt)
      × ((adjust_ring_index req).outstanding_cmds ≡ req.outstanding_cmds)
      × ((adjust_ring_index req).ring ≡ req.ring)
unfolding adjust_ring_index
adjust_same req = ground arith

-- The queue after a command of `need` entries.
pub record Queued (need : ℕ) (req : ReqQue) (handle sp : ℕ) (req' : ReqQue) : Type 0 where
  pub ring : IsRing req'
  pub length : req'.length ≡ req.length
  pub cnt : req'.cnt ≡ req.cnt - need
  pub index : req'.ring_index ≡ advance req.length req.ring_index need
  pub told : req'.req_q_in ≡ req'.ring_index
  pub slots : req'.outstanding_cmds ≡ update req.outstanding_cmds handle (some sp)
  pub others : KeepsOthers req.length req.ring_index need req.ring req'.ring

-- What a builder must do with the queue that it is given.
pub record Builds (need : ℕ) (req req' : ReqQue) : Type 0 where
  pub ring : IsRing req'
  pub keeps : Keeps req req'
  pub index : advance req.length req'.ring_index 1 ≡ advance req.length req.ring_index need
  pub some_entry : 0 < need
  pub others : KeepsOthers req.length req.ring_index need req.ring req'.ring

start_req_lem :
    (built : ReqQue)
    → IsRing built
    → let r = start_req false 0 built in
      IsRing r
      × (r.length ≡ built.length)
      × (r.cnt ≡ built.cnt)
      × (r.ring_index ≡ advance built.length built.ring_index 1)
      × (r.req_q_in ≡ r.ring_index)
      × (r.outstanding_cmds ≡ built.outstanding_cmds)
      × (r.ring ≡ built.ring)
unfolding start_req
start_req_lem built v =
    ground (arith, ring_index-adjust built v, adjust_ring_index-IsRing built v, adjust_same built)

with_ring-IsRing : (req : ReqQue) (m : Ring) → IsRing req → IsRing (record req { ring = m })
with_ring-IsRing req m v = ground arith

headed-Queued :
    (need : ℕ) (req taken built : ReqQue) (m : Ring) (handle sp : ℕ)
    → Builds need taken built
    → taken.length ≡ req.length
    → taken.ring_index ≡ req.ring_index
    → taken.cnt ≡ req.cnt - need
    → taken.outstanding_cmds ≡ update req.outstanding_cmds handle (some sp)
    → KeepsOthers req.length req.ring_index need req.ring m
    → Queued need req handle sp (start_req false 0 (record built { ring = m }))
headed-Queued need req taken built m handle sp b l i c s o =
    let (v, l', c', i', told, s', same) =
      start_req_lem (record built { ring = m }) (with_ring-IsRing built m b.ring) in
    record {
      ring = v;
      length = l' ∙ b.keeps.keeps_length ∙ l;
      cnt = c' ∙ b.keeps.keeps_cnt ∙ c;
      index =
          i'
          ∙ ap (λ n. advance n built.ring_index 1) b.keeps.keeps_length
          ∙ b.index
          ∙ ap₂ (λ n j. advance n j need) l i;
      told = told;
      slots = s' ∙ b.keeps.keeps_cmds ∙ s;
      others = λ e x out. ap (λ ring. ring e x) same ∙ o e x out;
    }

-- The packet is built in the first entry.
take_entries-frame :
    (f : Flavour) (req : ReqQue) (handle sp : ℕ) (cmd : ScsiCmnd) (e x : ℕ)
    → req.ring_ptr ≢ e
    → (take_entries f req handle sp cmd).ring e x ≡ req.ring e x
unfolding take_entries clear_entry
take_entries-frame f req handle sp cmd e x ne =
    put_words_ne (clear_entry req.ring req.ring_ptr 2) req.ring_ptr 1
      (f.words cmd req handle (length (dsds cmd))) e x (inl ne)
    ∙ ground arith

pub queue_command-Queued :
    (f : Flavour) (st : Stats) (req : ReqQue) (handle sp : ℕ) (cmd : ScsiCmnd)
    → IsRing req
    → Builds
        (f.calc (length (dsds cmd)))
        (take_entries f req handle sp cmd)
        (f.build st (take_entries f req handle sp cmd) (record cmd { mapped = dsds cmd })).1
    → Queued (f.calc (length (dsds cmd))) req handle sp (queue_command f st req handle sp cmd).1
unfolding queue_command take_entries
queue_command-Queued f st req handle sp cmd v b =
    headed-Queued _ req (take_entries f req handle sp cmd) _ _ handle sp b refl refl refl refl
      (λ e x o.
        let ne = Outside-first req _ e v b.some_entry o in
        store_ne _ req.ring_ptr 0 _ e x (inl ne)
        ∙ b.others e x o
        ∙ take_entries-frame f req handle sp cmd e x ne)

mod_wrap : (n i : ℕ) → 0 < n → i < n + n → i % n ≡ (if ltb i n then i else i - n)
mod_wrap n i pos h = ground (
  arith,
  mod-eq_of_lt {n = i} {m = n},
  mod-eq-sub-mod {n = i} {m = n},
  mod-eq_of_lt {n = i - n} {m = n},
)

-- A command of as many entries as there was room for leaves those that the chip has not read.
pub Queued-Fits :
    (need : ℕ) (req req' : ReqQue) (out used handle sp : ℕ)
    → Fits req out used
    → used + need + 2 ≤ req.length
    → need ≤ req.cnt
    → Queued need req handle sp req'
    → Fits req' out (used + need)
Queued-Fits need req req' out used handle sp f room enough q =
    ground (arith, q.length, q.index, mod_wrap req.length (req.ring_index + need))
