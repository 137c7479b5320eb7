-- ===== src/Request/Segments/Frame.antt =====
-- The words of the ring that are behind the loop of Request/Segments.
use scst_qla2xxx.Base.{
  ℕ, zero, suc, ◌+◌, ◌<◌, ◌≡◌, ◌≢◌, ◌∙◌, refl, sym, ap, ◌⊎◌, inl, inr, List, [], ◌∷◌, arith,
}
use scst_qla2xxx.Base.Lists.{length}
use scst_qla2xxx.Request.Queue.{ReqQue, adjust_ring_index}
use scst_qla2xxx.Request.Ring.{
  IsRing, prep_cont_type0_iocb, prep_cont_type1_iocb, advance, put_words_ne, store_ne,
  advance-advance, advance_ne,
}
use scst_qla2xxx.Request.Segments.{
  Sg, Cont, type0, type1, Cursor, prep_cont, more_room, put_dsd, load_segments, conts, dsd_words,
}
use scst_qla2xxx.Request.Segments.Count.{
  cursor, round_suc, prep_cont-Keeps, prep_cont-IsRing, ring_index-prep_cont,
}

-- A continuation entry is written at the place that the ring moves to.
prep_cont_frame :
    (c : Cont) (req : ReqQue) (e x : ℕ)
    → (prep_cont c req).ring_ptr ≢ e
    → (prep_cont c req).ring e x ≡ req.ring e x
unfolding prep_cont prep_cont_type0_iocb prep_cont_type1_iocb adjust_ring_index
prep_cont_frame type0 req e x h = store_ne _ _ 0 _ e x (inl h) ∙ ground arith
prep_cont_frame (type1 b) req e x h = store_ne _ _ 0 _ e x (inl h) ∙ ground arith

-- The word `x` of the entry `e` lies `d` entries behind the loop, or behind it in the same entry,
-- and the continuations that are still to come do not reach round the ring to it.
pub record Behind (s : Cursor) (todo d e x : ℕ) : Type 0 where
  pub ring : IsRing s.req
  pub inside : e < s.req.length
  pub index : s.req.ring_index ≡ advance s.req.length e d
  pub far : d + todo < s.req.length
  pub same : d ≡ 0 → x < s.word

moved-Behind :
    (c : Cont) (req : ReqQue) (w n d e x : ℕ)
    → Behind (cursor req w 0) (conts c 0 (suc n)) d e x
    → ((prep_cont c req).ring_index ≡ advance req.length e (suc d))
      × ((prep_cont c req).ring_ptr ≢ e)
      × ((prep_cont c req).length ≡ req.length)
unfolding conts
moved-Behind c req w n d e x b =
    let len = (prep_cont-Keeps c req).keeps_length in
    let at : (prep_cont c req).ring_index ≡ advance req.length e (suc d) =
      ring_index-prep_cont c req b.ring
      ∙ rw b.index (advance-advance req.length e d 1 ∙ ap (advance req.length e) (omega arith)) in
    (
      at,
      λ h.
          advance_ne req.length e d b.inside (omega (arith, b.far))
            (sym at ∙ sym (prep_cont-IsRing c req b.ring).in_step ∙ h),
      len,
    )

step-zero :
    (c : Cont) (req : ReqQue) (w : ℕ) (sg : Sg) (n d e x : ℕ)
    → Behind (cursor req w 0) (conts c 0 (suc n)) d e x
    → let s' = put_dsd c (more_room c (cursor req w 0)) sg in
      Behind s' (conts c s'.avail_dsds n) (suc d) e x × (s'.req.ring e x ≡ req.ring e x)
unfolding more_room put_dsd conts
step-zero c req w sg n d e x b =
    let (at, ne, len) = moved-Behind c req w n d e x b in
    (
      record {
        ring = ground (arith, prep_cont-IsRing c req b.ring);
        inside = omega (arith, b.inside, len);
        index = rw len at;
        far = omega (arith, b.far, len);
        same = λ z. absurd (omega arith);
      },
      put_words_ne _ _ _ (dsd_words c sg) e x (inl ne) ∙ prep_cont_frame c req e x ne,
    )

step-suc :
    (c : Cont) (req : ReqQue) (w a : ℕ) (sg : Sg) (n d e x : ℕ)
    → Behind (cursor req w (suc a)) (conts c (suc a) (suc n)) d e x
    → let s' = put_dsd c (more_room c (cursor req w (suc a))) sg in
      Behind s' (conts c s'.avail_dsds n) d e x × (s'.req.ring e x ≡ req.ring e x)
unfolding conts
step-suc c req w a sg n d e x b = rw (round_suc c req w a sg) (
  record {
    ring = ground arith;
    inside = b.inside;
    index = b.index;
    far = b.far;
    same = λ z. omega (arith, b.same z);
  },
  put_words_ne req.ring req.ring_ptr w (dsd_words c sg) e x (away d b),
)
  where
    away :
        (d : ℕ)
        → Behind (cursor req w (suc a)) (conts c (suc a) (suc n)) d e x
        → (req.ring_ptr ≢ e) ⊎ (x < w)
    away zero b = inr (b.same refl)
    away (suc d) b = inl λ h.
        advance_ne req.length e d b.inside (omega (arith, b.far))
          (sym b.index ∙ sym b.ring.in_step ∙ h)

-- Whatever is still to come, a word behind the loop keeps its value.
pub load_segments_frame :
    (c : Cont) (req : ReqQue) (w a : ℕ) (sgs : List Sg) (d e x : ℕ)
    → Behind (cursor req w a) (conts c a (length sgs)) d e x
    → (load_segments c (cursor req w a) sgs).ring e x ≡ req.ring e x
unfolding load_segments
load_segments_frame c req w a [] d e x b = refl
load_segments_frame c req w zero (sg ∷ sgs) d e x b =
    let s = put_dsd c (more_room c (cursor req w 0)) sg in
    let (b', same) = step-zero c req w sg (length sgs) d e x b in
    load_segments_frame c s.req s.word s.avail_dsds sgs (suc d) e x b' ∙ same
load_segments_frame c req w (suc a) (sg ∷ sgs) d e x b =
    let s = put_dsd c (more_room c (cursor req w (suc a))) sg in
    let (b', same) = step-suc c req w a sg (length sgs) d e x b in
    load_segments_frame c s.req s.word s.avail_dsds sgs d e x b' ∙ same
