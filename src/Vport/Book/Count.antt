-- ===== src/Vport/Book/Count.antt =====
-- The number of hosts is bounded by the number of ids.
use scst_qla2xxx.Base.{ℕ, zero, suc, ◌+◌, ◌≤◌, ◌<◌, ◌≡◌, List, [], ◌∷◌, arith, ltb, ◌==◌}
use scst_qla2xxx.Base.Lists.{length}
use scst_qla2xxx.Vport.{Hosts}
use scst_qla2xxx.Vport.Book.{one_if, uses, ids, Inv}

-- f 0 + ... + f (n - 1)
total : (ℕ → ℕ) → ℕ → ℕ
total f zero = 0
total f (suc n) = f n + total f n

total-add : (f g : ℕ → ℕ) (n : ℕ) → total (λ j. f j + g j) n ≡ total f n + total g n
unfolding total
total-add f g zero = omega arith
total-add f g (suc n) = omega (arith, total-add f g n)

total-one_if : (k n : ℕ) → total (λ j. one_if (k == j)) n ≡ one_if (ltb k n)
unfolding total
total-one_if k zero = ground arith
total-one_if k (suc n) = ground (arith, total-one_if k n)

total-zero : (n : ℕ) → total (λ j. 0) n ≡ 0
unfolding total
total-zero zero = omega arith
total-zero (suc n) = omega (arith, total-zero n)

total-le : (f : ℕ → ℕ) (n : ℕ) → ((j : ℕ) → f j ≤ 1) → total f n ≤ n
unfolding total
total-le f zero le = omega arith
total-le f (suc n) le = omega (arith, le n, total-le f n le)

-- Ids below `n` are all counted.
total-uses :
    (idx : ℕ → ℕ) (xs : List ℕ) (n : ℕ)
    → ((j : ℕ) → 0 < uses idx xs j → j < n)
    → total (uses idx xs) n ≡ length xs
unfolding uses
total-uses idx [] n below = total-zero n
total-uses idx (x ∷ xs) n below =
    let rec = total-uses idx xs n (λ j lt. below j (omega arith)) in
    let here : idx x < n = below (idx x) (ground arith) in
    let sum = total-add (λ j. one_if (idx x == j)) (uses idx xs) n in
    let one = total-one_if (idx x) n in ground arith

pub Inv-length : (hw : Hosts) → Inv hw → length hw.vp_list ≤ hw.max_npiv_vports + 1
Inv-length hw v =
    let all =
      total-uses (ids hw) hw.vp_list (hw.max_npiv_vports + 1)
        (λ j lt. let b = v.bounded j (ground (arith, v.used j)) in omega arith) in
    let le =
      total-le (uses (ids hw) hw.vp_list) (hw.max_npiv_vports + 1)
        (λ j. ground (arith, v.used j)) in
    omega arith
