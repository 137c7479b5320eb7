-- ===== src/Base/Span.antt =====
-- Multiples as repeated sums, which linear arithmetic reads.
use scst_qla2xxx.Base.{ℕ, zero, suc, ◌+◌, ◌*◌, ◌≡◌, arith}
use native.Mathlib.Nat.{suc-mul}

unfoldable pub span : ℕ → ℕ → ℕ
span step zero = 0
span step (suc n) = step + span step n

pub span-mul : (step n : ℕ) → span step n ≡ n * step
unfolding span
span-mul step zero = omega arith
span-mul step (suc n) = omega (arith, span-mul step n, suc-mul n step)
