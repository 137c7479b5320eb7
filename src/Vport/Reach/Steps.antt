-- ===== src/Vport/Reach/Steps.antt =====
-- Each operation on virtual ports, taken as a whole, keeps the book of ids sound and is a turn of its
-- abstract view.
use scst_qla2xxx.Base.{
  ℕ, ◌+◌, ◌≤◌, ◌<◌, ◌≡◌, ◌≢◌, ◌∙◌, inl, inr, refl, ap, Bool, true, false, Option, arith, Bool-cases,
}
use scst_qla2xxx.Vport.{Hosts, Vha, set_vha}
use scst_qla2xxx.Vport.Ids.{deallocate_vp_id, remove}
use scst_qla2xxx.Vport.Control.{VpIo, disable_vp}
use scst_qla2xxx.Vport.Port.{
  Outside, create_failed, initial_states, vport_disable, vport_delete, unlink, retire, added_vport,
  choose_queue,
}
use scst_qla2xxx.Vport.Book.{
  uses, listed, ids, Inv, uses-ext, uses-same, uses-remove, listed-append,
}
use scst_qla2xxx.Vport.Book.Keep.{Same-trans, Same-Inv}
use scst_qla2xxx.Vport.Frame.{
  set_vha-Same, disable_vp-Same, vport_disable-Same, initial_states-Same, vp_stop_timer-Same,
}
use scst_qla2xxx.Vport.Grow.{Kept, Grown, Grown-before}
use scst_qla2xxx.Vport.Owners.{
  owner, Turn, stay, acquire, release, owner_in-none, owner_in-some, owner_in-append,
  owner_in-listed, owner_in-remove, owner_in-ext, owner_in-same, remove-append,
}
use scst_qla2xxx.Vport.Reach.{
  Valid, Simulated, Shrunk, deallocate_vp_id-Shrunk, Shrunk-after, Shrunk-before,
}

-- A sound book does not use an id twice.
Inv-once : (hw : Hosts) → Inv hw → (j : ℕ) → uses (ids hw) hw.vp_list j ≤ 1
Inv-once hw v j = ground (arith, v.used j)

Shrunk-release :
    (a b : Hosts) (h : ℕ)
    → Inv a
    → 0 < listed h a.vp_list
    → Shrunk a b h
    → Turn a.max_npiv_vports (owner a) (owner b)
unfolding owner
Shrunk-release a b h v is k =
    release (ids a h) h (owner_in-listed (ids a) a.vp_list h is (Inv-once a v (ids a h))) (λ j.
      rw k.shrunk_list (
        owner_in-same (ids a) (ids b) (remove h a.vp_list) j k.shrunk_ids
        ∙ owner_in-remove (ids a) a.vp_list h j is (Inv-once a v (ids a h))))

-- A deletion gives one id back.
unlink-Shrunk :
    (io : VpIo) (hw : Hosts) (h : ℕ)
    → Inv hw
    → 0 < listed h hw.vp_list
    → h ≢ hw.base
    → Shrunk hw (unlink io hw h) h
unfolding unlink
unlink-Shrunk io hw h v is ne =
    let off = (disable_vp io hw h).0 in
    let going = set_vha off h (record (off.hosts h) { delete_progress = true }) in
    let s =
      Same-trans (disable_vp-Same io hw h)
        (set_vha-Same off h (record (off.hosts h) { delete_progress = true }) refl) in
    Shrunk-before
      (Shrunk-after s (
        deallocate_vp_id-Shrunk going h (Same-Inv hw going s v) (rw s.same_list is)
          (λ e. ne (e ∙ s.same_base))))
      (vp_stop_timer-Same (deallocate_vp_id going h) h)

-- The id that was given back is not used.
Shrunk-free :
    (a b : Hosts) (h : ℕ)
    → Inv a
    → 0 < listed h a.vp_list
    → Shrunk a b h
    → b.vp_idx_map (ids b h) ≡ false
Shrunk-free a b h v is k =
    let used = k.sound.used (ids b h) in
    let same = uses-ext (ids a) (ids b) (remove h a.vp_list) (ids b h) k.shrunk_ids in
    let less = uses-remove (ids a) a.vp_list h (ids b h) is in
    let once = Inv-once a v (ids b h) in
    let self = k.shrunk_ids h in
    let list = ap (λ l. uses (ids b) l (ids b h)) k.shrunk_list in ground arith

-- The second part of a deletion clears a bit that is clear.
retire-Inv : (hw : Hosts) (h : ℕ) → hw.vp_idx_map (ids hw h) ≡ false → Inv hw → Inv (retire hw h)
unfolding retire
retire-Inv hw h e v = record {
  word = v.word;
  used = λ j. ground (arith, v.used j);
  bounded = λ j t. ground (arith, v.bounded j);
  base_listed = v.base_listed;
  base_id = v.base_id;
  counted = v.counted;
}

retire-current :
    (hw : Hosts) (h : ℕ)
    → hw.num_vhosts + 1 ≤ hw.cur_vport_count
    → (retire hw h).num_vhosts ≤ (retire hw h).cur_vport_count
unfolding retire
retire-current hw h le = omega arith

retire-Turn :
    (max : ℕ) (a : ℕ → Option ℕ) (hw : Hosts) (h : ℕ)
    → Turn max a (owner hw)
    → Turn max a (owner (retire hw h))
unfolding retire owner
retire-Turn max a hw h t = t

retire-max : (hw : Hosts) (h : ℕ) → (retire hw h).max_npiv_vports ≡ hw.max_npiv_vports
unfolding retire
retire-max hw h = refl

pub vport_delete-Simulated :
    (io : VpIo) (hw : Hosts) (h : ℕ)
    → Valid hw
    → 0 < listed h hw.vp_list
    → h ≢ hw.base
    → Simulated hw (vport_delete io hw h)
unfolding vport_delete
vport_delete-Simulated io hw h v is ne =
    let k = unlink-Shrunk io hw h v.book is ne in
    let b = unlink io hw h in
    record {
      valid = record {
        book = retire-Inv b h (Shrunk-free hw b h v.book is k) k.sound;
        current = retire-current b h (omega (arith, k.shrunk_num, k.shrunk_current, v.current));
      };
      turn = retire-Turn hw.max_npiv_vports (owner hw) b h (Shrunk-release hw b h v.book is k);
      same_max = retire-max b h ∙ k.shrunk_max;
    }

-- A new host of a grown list.
Grown-acquire :
    (a b : Hosts) (h : ℕ)
    → Inv a
    → listed h a.vp_list ≡ 0
    → Grown a b h
    → Turn a.max_npiv_vports (owner a) (owner b)
unfolding owner
Grown-acquire a b h v un g =
    let unused : uses (ids a) a.vp_list g.id ≡ 0 = ground (arith, v.used g.id, g.free) in
    acquire g.id h g.in_range (owner_in-none (ids a) a.vp_list g.id unused)
      (λ j lt. owner_in-some (ids a) a.vp_list j (ground (arith, v.used j, g.least j lt)))
      (λ j.
        let old = owner_in-ext (ids a) (ids b) a.vp_list h j g.grown_ids un in
        let same = uses-same (ids a) (ids b) a.vp_list h (ids b h) g.grown_ids un in
        let app = owner_in-append (ids b) a.vp_list h j (ground (arith, g.new_id)) in
        rw g.grown_list (app ∙ ground (arith, g.new_id)))

module _ (io : VpIo) (a b : Hosts) (disable : Bool) (h : ℕ) (v : Valid a)
    (un : listed h a.vp_list ≡ 0) (g : Grown a b h) where
  h-new : h ≢ b.base
  h-new e = ground (arith, ap (λ x. listed x a.vp_list) (e ∙ g.grown_base), v.book.base_listed)

  -- The mid layer does not accept the port: its id is given back, but it stays counted.
  create_failed-Simulated : Simulated a (create_failed io (initial_states b h disable) h)
  unfolding create_failed owner
  create_failed-Simulated =
      let begun = initial_states b h disable in
      let off = (disable_vp io begun h).0 in
      let s = Same-trans (initial_states-Same b h disable) (disable_vp-Same io begun h) in
      let is : 0 < listed h b.vp_list =
        rw g.grown_list (ground (arith, listed-append a.vp_list h h)) in
      let k = Shrunk-after s (
        deallocate_vp_id-Shrunk off h (Same-Inv b off s g.sound) (rw s.same_list is)
          (λ e. h-new (e ∙ s.same_base))) in
      let list = k.shrunk_list ∙ ap (remove h) g.grown_list ∙ remove-append a.vp_list h un in
      let others : (x : ℕ) → x ≢ h → ids (create_failed io begun h) x ≡ ids a x =
        λ x ne. k.shrunk_ids x ∙ g.grown_ids x ne in
      record {
        valid = record {
          book = k.sound;
          current =
              omega
                (arith, k.shrunk_num, k.shrunk_current, g.grown_num, g.grown_current, v.current);
        };
        turn = stay (λ j. rw list (owner_in-ext (ids a) _ a.vp_list h j others un));
        same_max = k.shrunk_max ∙ g.grown_max;
      }

  -- The mid layer accepts the port.
  added-Simulated :
      (que : Vha → ℕ)
      → let hw = vport_disable io (initial_states b h disable) h disable in
        Simulated a (set_vha hw h (record (hw.hosts h) { req = que (hw.hosts h) }))
  added-Simulated que =
      let begun = initial_states b h disable in
      let hw = vport_disable io begun h disable in
      let done = set_vha hw h (record (hw.hosts h) { req = que (hw.hosts h) }) in
      let s =
        Same-trans (initial_states-Same b h disable)
          (Same-trans (vport_disable-Same io begun h disable) (set_vha-Same hw h _ refl)) in
      let g' = Grown-before g s in
      record {
        valid = record {
          book = g'.sound;
          current = omega (arith, g'.grown_num, g'.grown_current, v.current);
        };
        turn = Grown-acquire a done h v.book un g';
        same_max = g'.grown_max;
      }

pub added_vport-Simulated :
    (out : Outside) (io : VpIo) (a b : Hosts) (disable : Bool) (h : ℕ)
    → Valid a
    → listed h a.vp_list ≡ 0
    → Grown a b h
    → Simulated a ((added_vport out io b disable h).0)
unfolding added_vport
added_vport-Simulated out io a b disable h v un g = elim (Bool-cases out.added) [
  | inl e ↦ rw e (added-Simulated io a b disable h v un g (choose_queue out.queues))
  | inr e ↦ rw e (create_failed-Simulated io a b disable h v un g)
]

pub Kept-Simulated :
    (a b : Hosts) (h : ℕ) → Valid a → listed h a.vp_list ≡ 0 → Kept a b h → Simulated a b
unfolding owner
Kept-Simulated a b h v un k = record {
  valid = record { book = k.sound; current = omega (arith, k.kept_num, k.kept_current, v.current) };
  turn = stay (λ j. rw k.kept_list (owner_in-ext (ids a) (ids b) a.vp_list h j k.kept_ids un));
  same_max = k.kept_max;
}

pub Valid-Simulated : (a : Hosts) → Valid a → Simulated a a
Valid-Simulated a v = record { valid = v; turn = stay (λ j. refl); same_max = refl }
