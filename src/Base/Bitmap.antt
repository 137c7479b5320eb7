-- ===== src/Base/Bitmap.antt =====
-- Bitmaps as functions of a bit's number, and the kernel's find_first_zero_bit on them.
use scst_qla2xxx.Base.{
  ℕ, zero, suc, ◌+◌, ◌≤◌, ◌<◌, ◌≡◌, inl, inr, Bool, true, false, arith, Bool-cases, ℕ_discrete, sym,
}

-- find_first_zero_bit: the number of the bit, or the size; `i` bits are known to be set.
unfoldable pub first_zero : (ℕ → Bool) → ℕ → ℕ → ℕ
first_zero bits zero i = i
first_zero bits (suc rounds) i =
    let rest = first_zero bits rounds (i + 1) in elim (bits i) [ true ↦ rest | false ↦ i ]

pub first_zero-le :
    (bits : ℕ → Bool) (n i : ℕ) → (i ≤ first_zero bits n i) × (first_zero bits n i ≤ i + n)
unfolding first_zero
first_zero-le bits zero i = omega arith
first_zero-le bits (suc n) i = elim (Bool-cases (bits i)) [
  | inl e ↦ ground (arith, first_zero-le bits n (i + 1))
  | inr e ↦ ground arith
]

-- The bit that is found is clear.
pub first_zero-clear :
    (bits : ℕ → Bool) (n i : ℕ) → first_zero bits n i < i + n → bits (first_zero bits n i) ≡ false
unfolding first_zero
first_zero-clear bits zero i lt = absurd (omega arith)
first_zero-clear bits (suc n) i lt = elim (Bool-cases (bits i)) [
  | inl e ↦
      let rec : first_zero bits n (i + 1) < (i + 1) + n → bits (first_zero bits n (i + 1)) ≡ false =
        first_zero-clear bits n (i + 1) in
      ground arith
  | inr e ↦ ground arith
]

-- The bits before it are set.
pub first_zero-set : (bits : ℕ → Bool) (n i j : ℕ) → i ≤ j → j < first_zero bits n i → bits j ≡ true
unfolding first_zero
first_zero-set bits zero i j le lt = absurd (omega arith)
first_zero-set bits (suc n) i j le lt = elim (Bool-cases (bits i)) [
  | inl e ↦
      let rec : i + 1 ≤ j → j < first_zero bits n (i + 1) → bits j ≡ true =
        first_zero-set bits n (i + 1) j in
      elim (ℕ_discrete i j) [ yes p ↦ rw (sym p) e | no p ↦ ground arith ]
  | inr e ↦ ground arith
]
