-- ===== src/Vport/Book/Keep.antt =====
-- The operations keep the book: qla24xx_allocate_vp_id, qla24xx_deallocate_vp_id
-- (drivers/scsi/qla2xxx/qla_mid.c).
use scst_qla2xxx.Base.{
  ℕ, ◌+◌, ◌≤◌, ◌<◌, ◌≡◌, ◌≢◌, ◌∙◌, refl, Bool, true, false, List, [], ◌∷◌, ◌++◌, arith,
}
use scst_qla2xxx.Base.Lists.{length, length-append}
use scst_qla2xxx.Base.Words.{u16}
use scst_qla2xxx.Base.Mem.{update}
use scst_qla2xxx.Vport.{Hosts, set_vha}
use scst_qla2xxx.Vport.Ids.{take_vp_id, deallocate_vp_id}
use scst_qla2xxx.Vport.Book.{
  one_if, uses, listed, ids, Inv, uses-append, uses-remove, listed-append, listed-remove,
  length-remove, uses-same, uses-ext,
}
use scst_qla2xxx.Vport.Book.Count.{Inv-length}

-- Nothing of the book changes, but that ports may be counted that have no id any more.
pub record Same (a b : Hosts) : Type 0 where
  pub same_id : (h : ℕ) → (b.hosts h).vp_idx ≡ (a.hosts h).vp_idx
  pub same_map : (j : ℕ) → b.vp_idx_map j ≡ a.vp_idx_map j
  pub same_list : b.vp_list ≡ a.vp_list
  pub same_num : b.num_vhosts ≡ a.num_vhosts
  pub same_max : b.max_npiv_vports ≡ a.max_npiv_vports
  pub same_base : b.base ≡ a.base
  pub more_current : a.cur_vport_count ≤ b.cur_vport_count

pub Same-refl : (a : Hosts) → Same a a
Same-refl a = record {
  same_id = λ h. refl;
  same_map = λ j. refl;
  same_list = refl;
  same_num = refl;
  same_max = refl;
  same_base = refl;
  more_current = omega arith;
}

pub Same-trans : {a b c : Hosts} → Same a b → Same b c → Same a c
Same-trans p q = record {
  same_id = λ h. q.same_id h ∙ p.same_id h;
  same_map = λ j. q.same_map j ∙ p.same_map j;
  same_list = q.same_list ∙ p.same_list;
  same_num = q.same_num ∙ p.same_num;
  same_max = q.same_max ∙ p.same_max;
  same_base = q.same_base ∙ p.same_base;
  more_current = omega (arith, p.more_current, q.more_current);
}

pub Same-Inv : (a b : Hosts) → Same a b → Inv a → Inv b
Same-Inv a b s v =
    let used_in : (j : ℕ) → uses (ids b) b.vp_list j ≡ one_if (b.vp_idx_map j) = λ j.
      rw (s.same_list, s.same_map j) (uses-ext (ids a) (ids b) a.vp_list j s.same_id ∙ v.used j) in
    record {
      word = ground (arith, v.word, s.same_max);
      used = λ j. used_in j;
      bounded = λ j e. ground (arith, v.bounded j, s.same_map j, s.same_max);
      base_listed = rw (s.same_base, s.same_list) v.base_listed;
      base_id = s.same_id b.base ∙ rw s.same_base v.base_id;
      counted = rw (s.same_list, s.same_num) v.counted;
    }

-- The wraps of a 16-bit count do not show.
u16-suc : (n : ℕ) → n < 65535 → u16 (n + 1) ≡ n + 1
u16-suc n lt = omega arith

pub u16-pred : (n : ℕ) → 0 < n → n < 65536 → u16 (n + 65535) + 1 ≡ n
u16-pred n pos lt = omega arith

pub u16-id : (n : ℕ) → n < 65536 → u16 n ≡ n
u16-id n lt = omega arith

-- One more host, with an id that was free.
uses-one_more :
    (idx idx' : ℕ → ℕ) (xs : List ℕ) (h id j : ℕ) (bits : ℕ → Bool)
    → ((x : ℕ) → x ≢ h → idx' x ≡ idx x)
    → idx' h ≡ id
    → listed h xs ≡ 0
    → uses idx xs j ≡ one_if (bits j)
    → bits id ≡ false
    → uses idx' (xs ++ (h ∷ [])) j ≡ one_if (update bits id true j)
uses-one_more idx idx' xs h id j bits same e un u free =
    let old = uses-same idx idx' xs h j same un in let app = uses-append idx' xs h j in ground arith

module _ (hw : Hosts) (h id : ℕ) (v : Inv hw) (un : listed h hw.vp_list ≡ 0) where
  pub take_vp_id_others : (x : ℕ) → x ≢ h → ids (take_vp_id hw h id) x ≡ ids hw x
  unfolding take_vp_id set_vha
  take_vp_id_others x ne = ground arith

  pub take_vp_id_self : ids (take_vp_id hw h id) h ≡ u16 id
  unfolding take_vp_id set_vha
  take_vp_id_self = ground arith

  -- A host that is not in the list takes an id that is free.
  pub take_vp_id-Inv : hw.vp_idx_map id ≡ false → id ≤ hw.max_npiv_vports → Inv (take_vp_id hw h id)
  unfolding take_vp_id set_vha
  take_vp_id-Inv free le =
      let b = v.base_listed in
      let w = v.word in
      let n = Inv-length hw v in
      let c = v.counted in
      record {
        word = v.word;
        used = λ j.
            uses-one_more (ids hw) (ids (take_vp_id hw h id)) hw.vp_list h id j hw.vp_idx_map
              take_vp_id_others (take_vp_id_self ∙ u16-id id (omega arith)) un (v.used j) free;
        bounded = λ j e. ground (arith, v.bounded j);
        base_listed = ground (arith, listed-append hw.vp_list h hw.base);
        base_id = ground (arith, v.base_id);
        counted = ground (arith, length-append hw.vp_list (h ∷ []), u16-suc hw.num_vhosts);
      }

pub two_listed : (xs : List ℕ) (h k : ℕ) → h ≢ k → 0 < listed h xs → listed k xs ≡ 1 → 1 < length xs
unfolding listed
two_listed [] h k ne p e = absurd (omega arith)
two_listed (x ∷ []) h k ne p e = ground arith
two_listed (x ∷ y ∷ xs) h k ne p e = omega arith

pub deallocate_vp_id-Inv :
    (hw : Hosts) (h : ℕ)
    → Inv hw
    → 0 < listed h hw.vp_list
    → h ≢ hw.base
    → Inv (deallocate_vp_id hw h)
unfolding deallocate_vp_id
deallocate_vp_id-Inv hw h v is ne =
    let n = Inv-length hw v in
    let w = v.word in
    let c = v.counted in
    let less = length-remove hw.vp_list h is in
    let many = two_listed hw.vp_list h hw.base ne is v.base_listed in
    record {
      word = v.word;
      used = λ j. ground (arith, v.used j, uses-remove (ids hw) hw.vp_list h j is);
      bounded = λ j e. ground (arith, v.bounded j);
      base_listed = listed-remove hw.vp_list h hw.base ne ∙ v.base_listed;
      base_id = v.base_id;
      counted = ground (arith, u16-pred hw.num_vhosts);
    }
