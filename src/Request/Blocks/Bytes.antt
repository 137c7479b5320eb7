-- ===== src/Request/Blocks/Bytes.antt =====
-- The bytes of a scatter list (Request/Blocks).
use scst_qla2xxx.Base.{ℕ, zero, suc, ◌+◌, ◌-◌, ◌<◌, ◌≡◌, ap, refl, List, [], ◌∷◌, ◌++◌, arith}
use scst_qla2xxx.Request.Segments.{Sg}

-- The addresses of `n` bytes from `a` on, and of all bytes of a scatter list.
unfoldable pub run : ℕ → ℕ → List ℕ
run a zero = []
run a (suc n) = a ∷ run (a + 1) n

unfoldable pub bytes : List Sg → List ℕ
unfolding run
bytes [] = []
bytes (sg ∷ sgs) = run sg.dma_address sg.dma_len ++ bytes sgs

unfoldable pub total : List Sg → ℕ
total [] = 0
total (sg ∷ sgs) = sg.dma_len + total sgs

-- No element is empty.
unfoldable pub AllFilled : List Sg → Type 0
AllFilled [] = Unit
AllFilled (sg ∷ sgs) = (0 < sg.dma_len) × AllFilled sgs

pub run_add : (a m n : ℕ) (xs : List ℕ) → run a (m + n) ++ xs ≡ run a m ++ (run (a + m) n ++ xs)
unfolding run
run_add a zero n xs =
    let same : zero + n ≡ n = omega arith in let at : a + 0 ≡ a = omega arith in rw (same, at) refl
run_add a (suc m) n xs =
    let same : suc m + n ≡ suc (m + n) = omega arith in
    let at : a + suc m ≡ (a + 1) + m = omega arith in
    rw (same, at) (ap (λ l. a ∷ l) (run_add (a + 1) m n xs))

-- The bytes that are left, when `consumed` of the first element are used.
abbrev pub left : ℕ → List Sg → List ℕ
left consumed [] = []
left consumed (sg ∷ sgs) = run (sg.dma_address + consumed) (sg.dma_len - consumed) ++ bytes sgs

pub left_zero : (xs : List Sg) → left 0 xs ≡ bytes xs
unfolding bytes
left_zero [] = refl
left_zero (sg ∷ sgs) =
    let at : sg.dma_address + 0 ≡ sg.dma_address = omega arith in
    let all : sg.dma_len - 0 ≡ sg.dma_len = omega arith in rw (at, all) refl

abbrev pub Inside : ℕ → List Sg → Type 0
Inside consumed [] = consumed ≡ 0
Inside consumed (sg ∷ sgs) = consumed < sg.dma_len

pub Inside-zero : (xs : List Sg) → AllFilled xs → Inside 0 xs
unfolding AllFilled
Inside-zero [] f = refl
Inside-zero (sg ∷ sgs) (pos, f) = pos
