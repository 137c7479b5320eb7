-- ===== src/Request/Segments/ReadBack.antt =====
-- What the chip reads of the ring that the loop of Request/Segments has written.
use scst_qla2xxx.Base.{
  ℕ, zero, suc, ◌+◌, ◌-◌, ◌<◌, ◌≡◌, ◌∙◌, refl, sym, ap, List, [], ◌∷◌, map, arith,
}
use mathlib.Core.Path.{ap₂, subst}
use native.Mathlib.Nat.{mod-eq_of_lt}
use scst_qla2xxx.Base.Lists.{length}
use scst_qla2xxx.Request.Queue.{ReqQue}
use scst_qla2xxx.Request.Ring.{IsRing, advance, put_words, get_words, get-put_words, get_words_eq}
use scst_qla2xxx.Request.Segments.{
  Sg, Cont, type0, type1, prep_cont, load_segments, conts, dsd_words, dsd_size, cont_word,
  cont_dsds, read_segments, dsd_value, fw_segments,
}
use scst_qla2xxx.Request.Segments.Count.{
  cursor, round_suc, round_zero, prep_cont-Keeps, prep_cont-IsRing, ring_index-prep_cont,
}
use scst_qla2xxx.Request.Segments.Frame.{load_segments_frame}

length-dsd_words : (c : Cont) (sg : Sg) → length (dsd_words c sg) ≡ dsd_size c
unfolding dsd_words
length-dsd_words type0 sg = refl
length-dsd_words (type1 b) sg = refl

-- A descriptor that was just stored is still there at the end of the loop.
stored :
    (c : Cont) (req : ReqQue) (w a : ℕ) (sg : Sg) (sgs : List Sg)
    → IsRing req
    → conts c a (length sgs) < req.length
    → let now = record req { ring = put_words req.ring req.ring_ptr w (dsd_words c sg) } in
      get_words
        (load_segments c (cursor now (w + dsd_size c) a) sgs).ring
        req.ring_ptr
        w
        (dsd_size c)
      ≡ dsd_words c sg
stored c req w a sg sgs v far =
    let now = record req { ring = put_words req.ring req.ring_ptr w (dsd_words c sg) } in
    get_words_eq _ now.ring req.ring_ptr w (dsd_size c) (λ x lt.
      load_segments_frame c now (w + dsd_size c) a sgs 0 req.ring_ptr x (record {
        ring = ground arith;
        inside = omega arith;
        index = ground (arith, mod-eq_of_lt v.within);
        far = omega arith;
        same = λ _. lt;
      }))
    ∙ rw (← length-dsd_words c sg) (get-put_words req.ring req.ring_ptr w (dsd_words c sg))

-- The queue with one more descriptor in its current entry.
abbrev with_dsd : Cont → ReqQue → ℕ → Sg → ReqQue
with_dsd c req w sg = record req { ring = put_words req.ring req.ring_ptr w (dsd_words c sg) }

load_segments-suc :
    (c : Cont) (req : ReqQue) (w a : ℕ) (sg : Sg) (sgs : List Sg)
    → load_segments c (cursor req w (suc a)) (sg ∷ sgs)
      ≡ load_segments c (cursor (with_dsd c req w sg) (w + dsd_size c) a) sgs
unfolding load_segments
load_segments-suc c req w a sg sgs = ap (λ s. load_segments c s sgs) (round_suc c req w a sg)

load_segments-zero :
    (c : Cont) (req : ReqQue) (w : ℕ) (sg : Sg) (sgs : List Sg)
    → load_segments c (cursor req w 0) (sg ∷ sgs)
      ≡ load_segments c
          (cursor
            (with_dsd c (prep_cont c req) (cont_word c) sg)
            (cont_word c + dsd_size c)
            (cont_dsds c - 1))
          sgs
unfolding load_segments
load_segments-zero c req w sg sgs = ap (λ s. load_segments c s sgs) (round_zero c req w sg)

next-ptr :
    (c : Cont) (req : ReqQue)
    → IsRing req
    → advance req.length req.ring_ptr 1 ≡ (prep_cont c req).ring_ptr
next-ptr c req v =
    ap (λ i. advance req.length i 1) v.in_step
    ∙ sym (ring_index-prep_cont c req v)
    ∙ sym (prep_cont-IsRing c req v).in_step

with_dsd-IsRing :
    (c : Cont) (req : ReqQue) (w : ℕ) (sg : Sg) → IsRing req → IsRing (with_dsd c req w sg)
with_dsd-IsRing c req w sg v = ground arith

next-ptr_len :
    (c : Cont) (req : ReqQue) (len : ℕ)
    → IsRing req
    → req.length ≡ len
    → advance len req.ring_ptr 1 ≡ (prep_cont c req).ring_ptr
next-ptr_len c req len v e = ap (λ n. advance n req.ring_ptr 1) (sym e) ∙ next-ptr c req v

-- Reading from `q`'s ring, from a cursor, gives the words of the elements.
abbrev ReadsBack : Cont → ℕ → ℕ → ℕ → ℕ → List Sg → ReqQue → Type 0
ReadsBack c len e w a sgs q = read_segments c q.ring len e w a (length sgs) ≡ map (dsd_words c) sgs

read-load_segments :
    (c : Cont) (req : ReqQue) (w a len : ℕ) (sgs : List Sg)
    → IsRing req
    → req.length ≡ len
    → conts c a (length sgs) < req.length
    → ReadsBack c len req.ring_ptr w a sgs (load_segments c (cursor req w a) sgs)
unfolding read_segments conts
read-load_segments c req w a len [] v e far = refl
read-load_segments c req w zero len (sg ∷ sgs) v e far =
    let next = prep_cont c req in
    let same = (prep_cont-Keeps c req).keeps_length in
    let v' = prep_cont-IsRing c req v in
    let far' : conts c (cont_dsds c - 1) (length sgs) < next.length = omega (arith, same) in
    subst (ReadsBack c len req.ring_ptr w 0 (sg ∷ sgs)) (sym (load_segments-zero c req w sg sgs)) (
      rw (next-ptr_len c req len v e) (
        ap₂ ◌∷◌ (stored c next (cont_word c) (cont_dsds c - 1) sg sgs v' far') (
          read-load_segments c (with_dsd c next (cont_word c) sg) (cont_word c + dsd_size c)
            (cont_dsds c - 1) len sgs (with_dsd-IsRing c next (cont_word c) sg v') (same ∙ e)
            far')))
read-load_segments c req w (suc a) len (sg ∷ sgs) v e far =
    subst (ReadsBack c len req.ring_ptr w (suc a) (sg ∷ sgs))
      (sym (load_segments-suc c req w a sg sgs))
      (ap₂ ◌∷◌ (stored c req w a sg sgs v far) (
        read-load_segments c (with_dsd c req w sg) (w + dsd_size c) a len sgs
          (with_dsd-IsRing c req w sg v) e far))

-- An element that fits the descriptor: 32-bit addresses for continuation type 0, else 64-bit.
abbrev pub Fits : Cont → Sg → Type 0
Fits type0 sg = (sg.dma_address < 4294967296) × (sg.dma_len < 4294967296)
Fits (type1 _) sg = (sg.dma_address < 18446744073709551616) × (sg.dma_len < 4294967296)

abbrev pub AllFit : Cont → List Sg → Type 0
AllFit c [] = Unit
AllFit c (sg ∷ sgs) = Fits c sg × AllFit c sgs

dsd_value-dsd_words : (c : Cont) (sg : Sg) → Fits c sg → dsd_value c (dsd_words c sg) ≡ sg
unfolding dsd_value dsd_words
dsd_value-dsd_words type0 sg h = ground arith
dsd_value-dsd_words (type1 b) sg h = ground arith

map-dsd_value :
    (c : Cont) (sgs : List Sg) → AllFit c sgs → map (dsd_value c) (map (dsd_words c) sgs) ≡ sgs
map-dsd_value c [] h = refl
map-dsd_value c (sg ∷ sgs) h = ap₂ ◌∷◌ (dsd_value-dsd_words c sg h.0) (map-dsd_value c sgs h.1)

-- From any word and any number of descriptors left in the current entry, and with fewer
-- continuation entries than the ring is long, the chip reads back from a sound ring every address
-- and length, in order, that the loop under "Load data segments" stored, if they fit the
-- descriptor.
pub fw_segments-load_segments :
    (c : Cont) (req : ReqQue) (w a : ℕ) (sgs : List Sg)
    → IsRing req
    → conts c a (length sgs) < req.length
    → AllFit c sgs
    → fw_segments c
        (load_segments c (cursor req w a) sgs).ring
        req.length
        req.ring_ptr
        w
        a
        (length sgs)
      ≡ sgs
unfolding fw_segments
fw_segments-load_segments c req w a sgs v far fit =
    rw (read-load_segments c req w a req.length sgs v refl far) (map-dsd_value c sgs fit)
