-- ===== src/Request/Segments/Outside.antt =====
-- The entries of the ring that a command does not take (Request/Segments).
use scst_qla2xxx.Base.{ℕ, ◌+◌, ◌-◌, ◌<◌, ◌≤◌, ◌≡◌, ◌≢◌, ◌∙◌, dec_lt, List, arith}
use native.Mathlib.Nat.{mod-eq_of_lt, mod-eq-sub-mod, mod-lt}
use scst_qla2xxx.Base.Lists.{length}
use scst_qla2xxx.Request.Queue.{Ring, ReqQue}
use scst_qla2xxx.Request.Ring.{IsRing, advance}
use scst_qla2xxx.Request.Segments.{Sg, Cont, conts, load_segments}
use scst_qla2xxx.Request.Segments.Count.{cursor}
use scst_qla2xxx.Request.Segments.Frame.{load_segments_frame}

-- The entry `e` of a ring of `len` is none of the `n` from `index` on.
pub record IsOutside (len index n e : ℕ) : Type 0 where
  pub inside : e < len
  pub not_taken : (j : ℕ) → j < n → advance len index j ≢ e

-- Every word of every entry outside of those is kept.
abbrev pub KeepsOthers : (len index n : ℕ) → Ring → Ring → Type 0
KeepsOthers len index n m m' = (e x : ℕ) → IsOutside len index n e → m' e x ≡ m e x

pub advance_short : (len i k : ℕ) → i + k < len → advance len i k ≡ i + k
advance_short len i k lt = mod-eq_of_lt lt

pub advance_round : (len i k : ℕ) → len ≤ i + k → i + k < len + len → advance len i k ≡ i + k - len
advance_round len i k le lt = omega (
  arith,
  mod-eq-sub-mod {n = i + k} {m = len} le,
  mod-eq_of_lt {n = i + k - len} {m = len} (omega arith),
)

-- Such an entry is behind the first one.
Outside-behind :
    (len index n e : ℕ)
    → index < len
    → 0 < n
    → IsOutside len index n e
    → (d : ℕ) × (0 < d) × (d + n ≤ len) × (index ≡ advance len e d)
Outside-behind len index n e lt pos o = elim (dec_lt e index) [
  | yes before ↦
      let j = e + len - index in
      let at = advance_round len index j (omega arith) (omega (arith, o.inside)) in
      elim (dec_lt j n) [
        | yes taken ↦ absurd (o.not_taken j taken (omega (arith, at)))
        | no free ↦ (
          index - e,
          omega arith,
          omega (arith, o.inside),
          omega (arith, advance_short len e (index - e) (omega arith)),
        )
      ]
  | no after ↦
      let j = e - index in
      let at = advance_short len index j (omega (arith, o.inside)) in
      elim (dec_lt j n) [
        | yes taken ↦ absurd (o.not_taken j taken (omega (arith, at)))
        | no free ↦ (
          index + len - e,
          omega (arith, o.inside),
          omega (arith, o.inside),
          omega (
            arith,
            advance_round len e (index + len - e) (omega (arith, o.inside))
                (omega (arith, o.inside)),
          ),
        )
      ]
]

-- The first entry is one that is taken.
pub Outside-first :
    (req : ReqQue) (n e : ℕ)
    → IsRing req
    → 0 < n
    → IsOutside req.length req.ring_index n e
    → req.ring_ptr ≢ e
Outside-first req n e v pos o p = o.not_taken 0 pos (
    advance_short req.length req.ring_index 0 (omega (arith, v.within))
    ∙ omega (arith, p, v.in_step))

pub load_segments-KeepsOthers :
    (c : Cont) (req : ReqQue) (w avail : ℕ) (sgs : List Sg)
    → IsRing req
    → 1 + conts c avail (length sgs) ≤ req.length
    → KeepsOthers req.length req.ring_index
        (1 + conts c avail (length sgs))
        req.ring
        (load_segments c (cursor req w avail) sgs).ring
load_segments-KeepsOthers c req w avail sgs v room e x o =
    let n = 1 + conts c avail (length sgs) in
    let (d, pos, far, at) = Outside-behind req.length req.ring_index n e v.within (omega arith) o in
    load_segments_frame c req w avail sgs d e x (record {
      ring = v;
      inside = o.inside;
      index = at;
      far = omega (arith, far);
      same = λ z. absurd (omega arith);
    })

advance_apart :
    (len i j k : ℕ)
    → i + k < len + len
    → j < k
    → k < j + len
    → j + i < len
    → advance len i k ≢ advance len i j
advance_apart len i j k small lt near in_first p = elim (dec_lt (i + k) len) [
  | yes short ↦ omega (arith, p, advance_short len i k short, advance_short len i j (omega arith))
  | no round ↦
      omega
        (arith, p, advance_round len i k (omega arith) small, advance_short len i j (omega arith))
]

-- Two places less than a whole round apart are different.
pub advance_distinct :
    (len i j k : ℕ) → i < len → k < len → j < k → advance len i k ≢ advance len i j
advance_distinct len i j k lt small apart p = elim (dec_lt (i + j) len) [
  | yes first ↦ advance_apart len i j k (omega arith) apart (omega arith) (omega arith) p
  | no round ↦ omega (
    arith,
    p,
    advance_round len i k (omega arith) (omega arith),
    advance_round len i j (omega arith) (omega arith),
  )
]

pub advance_in : (len i k : ℕ) → 0 < len → advance len i k < len
advance_in len i k pos = mod-lt (i + k) pos
