-- ===== src/Request/Room/Safe.antt =====
-- The entries that the chip has not read, beside the count of free entries of Request/Room.
use scst_qla2xxx.Base.{
  inl, inr, Bool-cases, ℕ, ◌+◌, ◌-◌, ◌<◌, ◌≤◌, ◌≡◌, true, arith, ltb, if◌then◌else◌,
}
use scst_qla2xxx.Request.Queue.{ReqQue}
use scst_qla2xxx.Request.Ring.{IsRing, advance}
use scst_qla2xxx.Request.Segments.Outside.{advance_short, advance_round}
use scst_qla2xxx.Request.Room.{make_room}

-- The chip has read up to `out`, and `used` entries from there on wait for it, up to the driver's
-- index; the driver's count does not exceed what is free.
pub record Fits (req : ReqQue) (out used : ℕ) : Type 0 where
  pub ring : IsRing req
  pub out_in : out < req.length
  pub used_in : used < req.length
  pub index :
      req.ring_index ≡ (if ltb (out + used) req.length then out + used else out + used - req.length)
  pub free : used + req.cnt ≤ req.length

-- With room for `need` entries the count still does not exceed what is free, whether the driver
-- looked at the chip or not, and all but the count is as before.
pub make_room-Fits :
    (req : ReqQue) (need out used : ℕ)
    → Fits req out used
    → let (req', room) = make_room req need out in
      Fits req' out used × (room ≡ true → used + need ≤ req.length)
unfolding make_room
make_room-Fits req need out used f = ground arith

-- The driver's index, as a place round the ring.
pub Fits-index :
    (req : ReqQue) (out used : ℕ) → Fits req out used → req.ring_index ≡ advance req.length out used
Fits-index req out used f = elim (Bool-cases (ltb (out + used) req.length)) [
  | inl e ↦ ground (arith, f.index, advance_short req.length out used)
  | inr e ↦ ground (arith, f.index, f.out_in, f.used_in, advance_round req.length out used)
]
