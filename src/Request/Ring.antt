-- ===== src/Request/Ring.antt =====
-- Moving round the request ring, and writing into its entries: qla2x00_prep_cont_type0_iocb and
-- qla2x00_prep_cont_type1_iocb (drivers/scsi/qla2xxx/qla_iocb.c), and stores through a
-- `uint32_t *` that is advanced.
use scst_qla2xxx.Base.{
  ℕ, zero, suc, ◌+◌, ◌-◌, ◌<◌, ◌%◌, ◌≡◌, ◌≢◌, ◌∙◌, refl, ap, dec_lt, ◌⊎◌, inr, Bool, List, [], ◌∷◌,
  arith, ◌==◌, if◌then◌else◌,
}
use native.Mathlib.Nat.{mod-eq_of_lt, mod-eq-sub-mod, mod-add-mod}
use scst_qla2xxx.Base.Lists.{length}
use scst_qla2xxx.Request.Queue.{Ring, store, ReqQue, adjust_ring_index}

-- CONTINUE_TYPE; CONTINUE_A64_TYPE_FX00 and CONTINUE_A64_TYPE. The store of 32 bits clears the
-- other three bytes of the word.
unfoldable pub prep_cont_type0_iocb : ReqQue → ReqQue
prep_cont_type0_iocb req =
    let req' = adjust_ring_index req in record req' { ring = store req'.ring req'.ring_ptr 0 0x02 }

unfoldable pub prep_cont_type1_iocb : Bool → ReqQue → ReqQue
prep_cont_type1_iocb is_qlafx00 req =
    let req' = adjust_ring_index req in
    record req' { ring = store req'.ring req'.ring_ptr 0 (if is_qlafx00 then 0x03 else 0x0A) }

-- `*cur++ = v`, for each word in turn.
unfoldable pub put_words : Ring → ℕ → ℕ → List ℕ → Ring
put_words m e w [] = m
put_words m e w (v ∷ vs) = put_words (store m e w v) e (w + 1) vs

-- The words of one entry from `w` on.
unfoldable pub get_words : Ring → ℕ → ℕ → ℕ → List ℕ
get_words m e w zero = []
get_words m e w (suc n) = m e w ∷ get_words m e (w + 1) n

pub store_self : (m : Ring) (e w v : ℕ) → store m e w v e w ≡ v
unfolding store
store_self m e w v = ground arith

pub store_ne : (m : Ring) (e w v e' w' : ℕ) → (e ≢ e') ⊎ (w ≢ w') → store m e w v e' w' ≡ m e' w'
unfolding store
store_ne m e w v e' w' h = ground arith

pub put_words_ne :
    (m : Ring) (e w : ℕ) (vs : List ℕ) (e' w' : ℕ)
    → (e ≢ e') ⊎ (w' < w)
    → put_words m e w vs e' w' ≡ m e' w'
unfolding put_words
put_words_ne m e w [] e' w' h = refl
put_words_ne m e w (v ∷ vs) e' w' h =
    put_words_ne (store m e w v) e (w + 1) vs e' w' (ground arith)
    ∙ store_ne m e w v e' w' (ground arith)

pub get-put_words :
    (m : Ring) (e w : ℕ) (vs : List ℕ) → get_words (put_words m e w vs) e w (length vs) ≡ vs
unfolding put_words get_words
get-put_words m e w [] = refl
get-put_words m e w (v ∷ vs) = rw (get-put_words (store m e w v) e (w + 1) vs) (
    ap (λ x. x ∷ vs)
      (put_words_ne (store m e w v) e (w + 1) vs e w (inr (omega arith)) ∙ store_self m e w v))

pub get_words_eq :
    (m m' : Ring) (e w n : ℕ)
    → ((x : ℕ) → x < w + n → m e x ≡ m' e x)
    → get_words m e w n ≡ get_words m' e w n
unfolding get_words
get_words_eq m m' e w zero h = refl
get_words_eq m m' e w (suc n) h =
    rw (h w (omega arith), get_words_eq m m' e (w + 1) n (λ x lt. h x (omega arith)))

-- The pointer and the index agree and lie in the ring.
pub record IsRing (req : ReqQue) : Type 0 where
  pub in_step : req.ring_ptr ≡ req.ring_index
  pub within : req.ring_index < req.length
  pub word : req.length < 65536

pub adjust_ring_index-IsRing : (req : ReqQue) → IsRing req → IsRing (adjust_ring_index req)
unfolding adjust_ring_index
adjust_ring_index-IsRing req v = ground arith

-- `k` entries further on, round the ring.
abbrev pub advance : ℕ → ℕ → ℕ → ℕ
advance length i k = (i + k) % length

next-index : (n i : ℕ) → i < n → (if i + 1 == n then 0 else i + 1) ≡ (i + 1) % n
next-index n i h =
    ground (arith, mod-eq_of_lt {n = i + 1} {m = n}, mod-eq-sub-mod {n = i + 1} {m = n})

pub ring_index-adjust :
    (req : ReqQue)
    → IsRing req
    → (adjust_ring_index req).ring_index ≡ advance req.length req.ring_index 1
unfolding adjust_ring_index
ring_index-adjust req v = ground (arith, next-index req.length req.ring_index)

pub advance-advance : (n i j k : ℕ) → advance n (advance n i j) k ≡ advance n i (j + k)
advance-advance n i j k = rw mod-add-mod (ap (λ x. x % n) (omega arith))

-- Fewer than `n` steps round the ring do not come back to the start.
pub advance_ne : (n i k : ℕ) → i < n → suc k < n → advance n i (suc k) ≢ i
advance_ne n i k hi hk = elim (dec_lt (i + suc k) n) [
  | yes p ↦ omega (arith, mod-eq_of_lt p)
  | no p ↦ omega (
    arith,
    mod-eq-sub-mod {n = i + suc k} {m = n} (omega arith),
    mod-eq_of_lt {n = i + suc k - n} {m = n} (omega arith),
  )
]
