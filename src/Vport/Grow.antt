-- ===== src/Vport/Grow.antt =====
-- How the creation and the deletion of a virtual port change the book of ids: by one host.
use scst_qla2xxx.Base.{
  ℕ, ◌+◌, ◌≤◌, ◌<◌, ◌≡◌, ◌≢◌, ◌∙◌, ◌⊎◌, inl, inr, refl, ap, true, false, Option, none, some, List,
  [], ◌∷◌, ◌++◌, arith, ltb, Bool-cases,
}
use scst_qla2xxx.Base.Words.{u16}
use scst_qla2xxx.Base.Bitmap.{first_zero, first_zero-le, first_zero-clear, first_zero-set}
use scst_qla2xxx.Vport.{Hosts, Vha, set_vha}
use scst_qla2xxx.Vport.Ids.{take_vp_id, allocate_vp_id}
use scst_qla2xxx.Vport.Create.{Request, Params, named, publish, equip, with_id, create_vhost}
use scst_qla2xxx.Vport.Book.{listed, ids, Inv, uses-same}
use scst_qla2xxx.Vport.Book.Keep.{
  Same, Same-Inv, take_vp_id-Inv, take_vp_id_others, take_vp_id_self, u16-id,
}
use scst_qla2xxx.Vport.Book.Count.{Inv-length}

-- No host more, and none that is in the list has another id.
pub record Kept (a b : Hosts) (h : ℕ) : Type 0 where
  pub sound : Inv b
  pub kept_list : b.vp_list ≡ a.vp_list
  pub kept_ids : (x : ℕ) → x ≢ h → ids b x ≡ ids a x
  pub kept_num : b.num_vhosts ≡ a.num_vhosts
  pub kept_base : b.base ≡ a.base
  pub kept_max : b.max_npiv_vports ≡ a.max_npiv_vports
  pub kept_current : b.cur_vport_count ≡ a.cur_vport_count

-- One host more, with the least id that was free.
pub record Grown (a b : Hosts) (h : ℕ) : Type 0 where
  pub sound : Inv b
  pub id : ℕ
  pub free : a.vp_idx_map id ≡ false
  pub least : (j : ℕ) → j < id → a.vp_idx_map j ≡ true
  pub in_range : id ≤ a.max_npiv_vports
  pub grown_list : b.vp_list ≡ a.vp_list ++ (h ∷ [])
  pub new_id : ids b h ≡ id
  pub grown_ids : (x : ℕ) → x ≢ h → ids b x ≡ ids a x
  pub grown_num : b.num_vhosts ≡ a.num_vhosts + 1
  pub grown_base : b.base ≡ a.base
  pub grown_max : b.max_npiv_vports ≡ a.max_npiv_vports
  pub grown_current : a.cur_vport_count + 1 ≤ b.cur_vport_count

-- How a creation ends.
abbrev pub Made : Hosts → ℕ → Hosts × Option ℕ → Type 0
Made hw h r = ((r.1 ≡ none) × Kept hw r.0 h) ⊎ ((r.1 ≡ some h) × Grown hw r.0 h)

-- After a change to a host outside the list.
Made-set_vha :
    (hw : Hosts) (h : ℕ) (vha : Vha) (r : Hosts × Option ℕ)
    → Kept hw (set_vha hw h vha) h
    → Made (set_vha hw h vha) h r
    → Made hw h r
unfolding set_vha
Made-set_vha hw h vha r k (inl (e, m)) = inl (
  e,
  record {
    sound = m.sound;
    kept_list = m.kept_list;
    kept_ids = λ x ne. m.kept_ids x ne ∙ k.kept_ids x ne;
    kept_num = m.kept_num;
    kept_base = m.kept_base;
    kept_max = m.kept_max;
    kept_current = m.kept_current;
  },
)
Made-set_vha hw h vha r k (inr (e, g)) = inr (
  e,
  record {
    sound = g.sound;
    id = g.id;
    free = g.free;
    least = g.least;
    in_range = g.in_range;
    grown_list = g.grown_list;
    new_id = g.new_id;
    grown_ids = λ x ne. g.grown_ids x ne ∙ k.kept_ids x ne;
    grown_num = g.grown_num;
    grown_base = g.grown_base;
    grown_max = g.grown_max;
    grown_current = g.grown_current;
  },
)

pub Grown-before : {a b c : Hosts} {h : ℕ} → Grown a b h → Same b c → Grown a c h
Grown-before {a} {b} {c} {h} g s = record {
  sound = Same-Inv b c s g.sound;
  id = g.id;
  free = g.free;
  least = g.least;
  in_range = g.in_range;
  grown_list = s.same_list ∙ g.grown_list;
  new_id = s.same_id h ∙ g.new_id;
  grown_ids = λ x ne. s.same_id x ∙ g.grown_ids x ne;
  grown_num = s.same_num ∙ g.grown_num;
  grown_base = s.same_base ∙ g.grown_base;
  grown_max = s.same_max ∙ g.grown_max;
  grown_current = omega (arith, g.grown_current, s.more_current);
}

publish-Same :
    (params : Params) (hw : Hosts) (h id : ℕ)
    → ids hw h ≡ id
    → hw.vp_idx_map id ≡ true
    → Same hw (publish params hw h id)
unfolding publish equip set_vha
publish-Same params hw h id e used = record {
  same_id = λ x. ground arith;
  same_map = λ j. ground arith;
  same_list = refl;
  same_num = refl;
  same_max = refl;
  same_base = refl;
  more_current = omega arith;
}

-- The fields of a host that takes an id.
record Taken (a b : Hosts) (h id : ℕ) : Type 0 where
  taken_map : b.vp_idx_map (u16 id) ≡ true
  taken_list : b.vp_list ≡ a.vp_list ++ (h ∷ [])
  taken_num : b.num_vhosts ≡ a.num_vhosts + 1
  taken_base : b.base ≡ a.base
  taken_max : b.max_npiv_vports ≡ a.max_npiv_vports
  taken_current : b.cur_vport_count ≡ a.cur_vport_count

take_vp_id-Taken :
    (hw : Hosts) (h id : ℕ)
    → u16 id ≡ id
    → hw.num_vhosts < 65535
    → Taken hw (take_vp_id hw h id) h id
unfolding take_vp_id set_vha
take_vp_id-Taken hw h id e lt = record {
  taken_map = ground arith;
  taken_list = refl;
  taken_num = omega arith;
  taken_base = refl;
  taken_max = refl;
  taken_current = refl;
}

publish-current :
    (params : Params) (hw : Hosts) (h id : ℕ)
    → (publish params hw h id).cur_vport_count ≡ hw.cur_vport_count + 1
unfolding publish
publish-current params hw h id = refl

with_id-big :
    (params : Params) (hw : Hosts) (h id : ℕ)
    → ltb hw.max_npiv_vports (u16 id) ≡ true
    → with_id params hw h id ≡ (set_vha hw h (record (hw.hosts h) { vp_idx = u16 id }), none)
unfolding with_id
with_id-big params hw h id e = rw e refl

with_id-small :
    (params : Params) (hw : Hosts) (h id : ℕ)
    → ltb hw.max_npiv_vports (u16 id) ≡ false
    → with_id params hw h id ≡ (publish params hw h (u16 id), some h)
unfolding with_id
with_id-small params hw h id e = rw e refl

-- The id that the search gives.
abbrev next_id : Hosts → ℕ
next_id hw = first_zero hw.vp_idx_map (hw.max_npiv_vports + 1) 0

allocate_vp_id-big :
    (hw : Hosts) (h : ℕ)
    → ltb hw.max_npiv_vports (next_id hw) ≡ true
    → allocate_vp_id hw h ≡ (hw, next_id hw)
unfolding allocate_vp_id
allocate_vp_id-big hw h e = rw e refl

allocate_vp_id-small :
    (hw : Hosts) (h : ℕ)
    → ltb hw.max_npiv_vports (next_id hw) ≡ false
    → allocate_vp_id hw h ≡ (take_vp_id hw h (next_id hw), next_id hw)
unfolding allocate_vp_id
allocate_vp_id-small hw h e = rw e refl

take_vp_id-max : (hw : Hosts) (h id : ℕ) → (take_vp_id hw h id).max_npiv_vports ≡ hw.max_npiv_vports
unfolding take_vp_id set_vha
take_vp_id-max hw h id = refl

module _ (hw : Hosts) (h : ℕ) (v : Inv hw) (un : listed h hw.vp_list ≡ 0) where
  -- A host outside the list may change.
  set_vha-Kept : (vha : Vha) → Kept hw (set_vha hw h vha) h
  unfolding set_vha
  set_vha-Kept vha =
      let others : (x : ℕ) → x ≢ h → ids (set_vha hw h vha) x ≡ ids hw x = λ x ne. ground arith in
      let b = v.base_listed in
      record {
        sound = record {
          word = v.word;
          used =
              λ j. uses-same (ids hw) (ids (set_vha hw h vha)) hw.vp_list h j others un ∙ v.used j;
          bounded = v.bounded;
          base_listed = v.base_listed;
          base_id =
              others hw.base (λ e. absurd (ground (arith, ap (λ x. listed x hw.vp_list) e)))
              ∙ v.base_id;
          counted = v.counted;
        };
        kept_list = refl;
        kept_ids = others;
        kept_num = refl;
        kept_base = refl;
        kept_max = refl;
        kept_current = refl;
      }

  take-Grown :
      (params : Params) (id : ℕ)
      → hw.vp_idx_map id ≡ false
      → ((j : ℕ) → j < id → hw.vp_idx_map j ≡ true)
      → id ≤ hw.max_npiv_vports
      → Grown hw (publish params (take_vp_id hw h id) h (u16 id)) h
  take-Grown params id free least le =
      let w = v.word in
      let taken = take_vp_id hw h id in
      let word = u16-id id (omega arith) in
      let self = take_vp_id_self hw h id v un in
      let n = Inv-length hw v in
      let c = v.counted in
      let t = take_vp_id-Taken hw h id word (omega arith) in
      let same = publish-Same params taken h (u16 id) self t.taken_map in
      record {
        sound =
            Same-Inv taken (publish params taken h (u16 id)) same
              (take_vp_id-Inv hw h id v un free le);
        id = id;
        free = free;
        least = least;
        in_range = le;
        grown_list = same.same_list ∙ t.taken_list;
        new_id = same.same_id h ∙ self ∙ word;
        grown_ids = λ x ne. same.same_id x ∙ take_vp_id_others hw h id v un x ne;
        grown_num = same.same_num ∙ t.taken_num;
        grown_base = same.same_base ∙ t.taken_base;
        grown_max = same.same_max ∙ t.taken_max;
        grown_current = omega (arith, publish-current params taken h (u16 id), t.taken_current);
      }

  allocated-Made :
      (params : Params) → let r = allocate_vp_id hw h in Made hw h (with_id params r.0 h r.1)
  allocated-Made params =
      let id = next_id hw in
      let w = v.word in
      let bound = first_zero-le hw.vp_idx_map (hw.max_npiv_vports + 1) 0 in
      let word = u16-id id (omega arith) in
      elim (Bool-cases (ltb hw.max_npiv_vports id)) [
        | inl e ↦
            rw (allocate_vp_id-big hw h e, with_id-big params hw h id (ground arith))
              (inl (refl, set_vha-Kept _))
        | inr e ↦
            rw
              (
                allocate_vp_id-small hw h e,
                with_id-small params (take_vp_id hw h id) h id
                    (ground (arith, take_vp_id-max hw h id)),
              )
              (inr (
                refl,
                take-Grown params id (first_zero-clear hw.vp_idx_map _ 0 (ground arith))
                    (λ j lt. first_zero-set hw.vp_idx_map _ 0 j (omega arith) lt) (ground arith),
              ))
      ]

-- A creation for a host that is not in the list keeps the list, or adds the host with the least
-- free id.
pub create_vhost-Made :
    (hw : Hosts) (h : ℕ)
    → Inv hw
    → listed h hw.vp_list ≡ 0
    → (u64_to_wwn : ℕ → List ℕ) (params : Params) (asked : Request)
    → Made hw h (create_vhost u64_to_wwn params hw asked (some h))
unfolding create_vhost
create_vhost-Made hw h v un u64_to_wwn params asked =
    let k = set_vha-Kept hw h v un (named u64_to_wwn asked) in
    Made-set_vha hw h (named u64_to_wwn asked) _ k
      (allocated-Made (set_vha hw h (named u64_to_wwn asked)) h k.sound (rw k.kept_list un) params)
