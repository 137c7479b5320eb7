-- ===== src/Idc/Owner/Unique.antt =====
-- Two functions of one adapter do not both own a reset (Idc/Owner).
use scst_qla2xxx.Base.{
  ℕ, zero, suc, ◌+◌, ◌-◌, ◌≤◌, ◌<◌, ◌≡◌, ◌≢◌, ◌⊎◌, inl, inr, refl, ap, sym, true, false, some, not,
  ◌&&◌, ltb, ◌==◌, arith, Bool-cases, Option-cases, ℕ_discrete,
}
use scst_qla2xxx.Idc.{Nic, Peers, rd_reg}
use scst_qla2xxx.Idc.Owner.{
  class_type, find_fcoe, first_of, fcoe_other_function, reset_ownership, dev_partinfo1,
  dev_partinfo2,
}

-- The function that is found is not after any other FCoE function of the register.
find_fcoe-le :
    (info portnum base rounds i j : ℕ)
    → i ≤ j
    → j < i + rounds
    → class_type info j ≡ 2
    → j + base ≢ portnum
    → (k : ℕ) × (find_fcoe info portnum base rounds i ≡ some k) × (k ≤ j + base)
unfolding find_fcoe
find_fcoe-le info portnum base zero i j le lt c ne = absurd (omega arith)
find_fcoe-le info portnum base (suc rounds) i j le lt c ne =
    elim (Bool-cases ((class_type info i == 2) && not (i + base == portnum))) [
      | inl e ↦ (i + base, rw e refl, omega arith)
      | inr e ↦
          let later : i ≢ j = λ p. ground (arith, ap (class_type info) p) in
          let (k, found, small) =
            find_fcoe-le info portnum base rounds (i + 1) j (omega arith) (omega arith) c ne in
          (k, rw e found, small)
    ]

find_fcoe-bound :
    (info portnum base rounds i k : ℕ)
    → find_fcoe info portnum base rounds i ≡ some k
    → k < i + rounds + base
unfolding find_fcoe
find_fcoe-bound info portnum base zero i k e = absurd (ground arith)
find_fcoe-bound info portnum base (suc rounds) i k e =
    elim (Bool-cases ((class_type info i == 2) && not (i + base == portnum))) [
      | inl t ↦ ground arith
      | inr t ↦
          let later : find_fcoe info portnum base rounds (i + 1) ≡ some k = ground arith in
          omega (arith, find_fcoe-bound info portnum base rounds (i + 1) k later)
    ]

-- An FCoE function, by the partition information.
abbrev pub IsFcoe : ℕ → ℕ → ℕ → Type 0
IsFcoe info1 info2 p =
    ((p < 8) × (class_type info1 p ≡ 2)) ⊎ ((8 ≤ p) × (p < 16) × (class_type info2 (p - 8) ≡ 2))

other_le :
    (info1 info2 q p : ℕ) → IsFcoe info1 info2 p → p ≢ q → fcoe_other_function info1 info2 q ≤ p
unfolding fcoe_other_function first_of
other_le info1 info2 q p (inl (lt, c)) ne =
    let (k, e, le) =
      find_fcoe-le info1 q 0 8 0 p (omega arith) (omega arith) c (λ e. ne (omega arith)) in
    ground arith
other_le info1 info2 q p (inr (le, lt, c)) ne =
    let (k, e, small) =
      find_fcoe-le info2 q 8 8 0 (p - 8) (omega arith) (omega arith) c (λ e. ne (omega arith)) in
    elim (Option-cases (find_fcoe info1 q 0 8 0)) [
      | inl none_found ↦ ground arith
      | inr (i, found) ↦ let bound = find_fcoe-bound info1 q 0 8 0 i found in ground arith
    ]

-- An owner has a lower number than the other function.
owner_lt :
    (peers : Peers) (nic : Nic)
    → nic.answers dev_partinfo1 ≡ true
    → nic.answers dev_partinfo2 ≡ true
    → nic.reset_owner ≡ false
    → (reset_ownership peers nic).reset_owner ≡ true
    → nic.portnum
      < fcoe_other_function (nic.regs dev_partinfo1) (nic.regs dev_partinfo2) nic.portnum
unfolding reset_ownership rd_reg
owner_lt peers nic a1 a2 before own =
    let other = fcoe_other_function (nic.regs dev_partinfo1) (nic.regs dev_partinfo2) nic.portnum in
    elim (Bool-cases (ltb nic.portnum other)) [
      | inl e ↦ ground arith
      | inr e ↦ absurd (ground arith)
    ]

-- Of two FCoE functions that see the same registers, can read both registers of partition
-- information, and are not owners yet, at most one becomes the owner of the reset by
-- qla83xx_reset_ownership.
pub reset_ownership_unique :
    (peers peers' : Peers) (a b : Nic)
    → a.regs ≡ b.regs
    → a.answers dev_partinfo1 ≡ true
    → a.answers dev_partinfo2 ≡ true
    → b.answers dev_partinfo1 ≡ true
    → b.answers dev_partinfo2 ≡ true
    → IsFcoe (a.regs dev_partinfo1) (a.regs dev_partinfo2) a.portnum
    → IsFcoe (a.regs dev_partinfo1) (a.regs dev_partinfo2) b.portnum
    → a.reset_owner ≡ false
    → b.reset_owner ≡ false
    → (reset_ownership peers a).reset_owner ≡ true
    → (reset_ownership peers' b).reset_owner ≡ true
    → a.portnum ≡ b.portnum
reset_ownership_unique peers peers' a b same a1 a2 b1 b2 fa fb na nb oa ob =
    let la = owner_lt peers a a1 a2 na oa in
    let lb = owner_lt peers' b b1 b2 nb ob in
    let e1 : b.regs dev_partinfo1 ≡ a.regs dev_partinfo1 = ap (λ r. r dev_partinfo1) (sym same) in
    let e2 : b.regs dev_partinfo2 ≡ a.regs dev_partinfo2 = ap (λ r. r dev_partinfo2) (sym same) in
    elim (ℕ_discrete a.portnum b.portnum) [
      | yes e ↦ e
      | no ne ↦
          let l = other_le _ _ a.portnum b.portnum fb (λ e. ne (sym e)) in
          let m = other_le _ _ b.portnum a.portnum fa ne in
          let lb' : b.portnum
              < fcoe_other_function (a.regs dev_partinfo1) (a.regs dev_partinfo2) b.portnum =
            rw (sym e1, sym e2) lb in
          absurd (omega arith)
    ]
