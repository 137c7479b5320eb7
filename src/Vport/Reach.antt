-- ===== src/Vport/Reach.antt =====
-- The states that the operations on virtual ports reach, each operation taken as a whole: the book of
-- ids stays sound, and each operation is a step of its abstract view (Vport/Owners).
pub mod Steps
pub mod Whole
use scst_qla2xxx.Base.{
  ℕ, ◌+◌, ◌-◌, ◌≤◌, ◌<◌, ◌≡◌, ◌≢◌, ◌∙◌, ◌⊎◌, inl, inr, refl, ap, sym, Bool, true, false, Option,
  none, some, List, [], ◌∷◌, ◌++◌, arith, ◌==◌, if◌then◌else◌, Bool-cases, Option-cases, ℕ_discrete,
}
use scst_qla2xxx.Base.Lists.{length}
use scst_qla2xxx.Base.Mem.{update}
use scst_qla2xxx.Vport.{Hosts, Vha, set_vha}
use scst_qla2xxx.Vport.Ids.{deallocate_vp_id, remove}
use scst_qla2xxx.Vport.Control.{VpIo, disable_vp, enable_vp, configure_vp, vp_abort_isp}
use scst_qla2xxx.Vport.Create.{Request, sanity_check, create_vhost, vpc_ok}
use scst_qla2xxx.Vport.Port.{
  Outside, create_failed, initial_states, vport_disable, vport_create, vport_delete, unlink, retire,
  vp_stop_timer, added_vport, choose_queue,
}
use scst_qla2xxx.Vport.Book.{
  one_if, uses, listed, ids, Inv, uses-listed, listed-append, uses-append, length-remove,
}
use scst_qla2xxx.Vport.Book.Keep.{
  Same, Same-refl, Same-trans, Same-Inv, deallocate_vp_id-Inv, u16-pred, two_listed,
}
use scst_qla2xxx.Vport.Book.Count.{Inv-length}
use scst_qla2xxx.Vport.Frame.{
  set_vha-Same, disable_vp-Same, enable_vp-Same, configure_vp-Same, vp_abort_isp-Same,
  vport_disable-Same, initial_states-Same, vp_stop_timer-Same,
}
use scst_qla2xxx.Vport.Grow.{Kept, Grown, Made, create_vhost-Made}
use scst_qla2xxx.Vport.Owners.{
  owner_in, owner, Turn, stay, acquire, release, owner_in-none, owner_in-some, owner_in-append,
  owner_in-listed, owner_in-remove, owner_in-ext, owner_in-same, remove-append,
}

-- The book is sound, and every host but the physical one is counted as a port.
pub record Valid (hw : Hosts) : Type 0 where
  pub book : Inv hw
  pub current : hw.num_vhosts ≤ hw.cur_vport_count

abbrev pub IsNew : Hosts → Option ℕ → Type 0
IsNew hw none = Unit
IsNew hw (some h) = listed h hw.vp_list ≡ 0

-- An operation, as a whole. A new host has a pointer that is not in the list; a port is deleted while
-- it is in the list, and the physical port is not.
pub data Step (hw hw' : Hosts) : Type 0 where
  create :
      (out : Outside) (io : VpIo) (asked : Request) (disable : Bool)
      → IsNew hw out.host
      → hw' ≡ (vport_create out io hw asked disable).0
      → Step hw hw'
  delete :
      (io : VpIo) (h : ℕ)
      → 0 < listed h hw.vp_list
      → h ≢ hw.base
      → hw' ≡ vport_delete io hw h
      → Step hw hw'
  change : (io : VpIo) (h : ℕ) (disable : Bool) → hw' ≡ vport_disable io hw h disable → Step hw hw'
  configure : (io : VpIo) (h : ℕ) → hw' ≡ configure_vp io hw h → Step hw hw'
  abort : (io : VpIo) (h : ℕ) → hw' ≡ (vp_abort_isp io hw h).0 → Step hw hw'

pub data Reach (hw : Hosts) : Hosts → Type 0 where
  here : Reach hw hw
  next : {a b : Hosts} → Reach hw a → Step a b → Reach hw b

-- What a step does: the book stays valid, and its abstract view makes a turn.
pub record Simulated (a b : Hosts) : Type 0 where
  pub valid : Valid b
  pub turn : Turn a.max_npiv_vports (owner a) (owner b)
  pub same_max : b.max_npiv_vports ≡ a.max_npiv_vports

Same-Simulated : (a b : Hosts) → Same a b → Valid a → Simulated a b
unfolding owner
Same-Simulated a b s v = record {
  valid = record {
    book = Same-Inv a b s v.book;
    current = omega (arith, v.current, s.same_num, s.more_current);
  };
  turn = stay (λ j. rw s.same_list (owner_in-same (ids a) (ids b) a.vp_list j s.same_id));
  same_max = s.same_max;
}

-- One host less; the ports may be counted as one less.
record Shrunk (a b : Hosts) (h : ℕ) : Type 0 where
  sound : Inv b
  shrunk_list : b.vp_list ≡ remove h a.vp_list
  shrunk_ids : (x : ℕ) → ids b x ≡ ids a x
  shrunk_num : b.num_vhosts + 1 ≡ a.num_vhosts
  shrunk_base : b.base ≡ a.base
  shrunk_max : b.max_npiv_vports ≡ a.max_npiv_vports
  shrunk_current : a.cur_vport_count ≤ b.cur_vport_count

deallocate_vp_id-Shrunk :
    (hw : Hosts) (h : ℕ)
    → Inv hw
    → 0 < listed h hw.vp_list
    → h ≢ hw.base
    → Shrunk hw (deallocate_vp_id hw h) h
unfolding deallocate_vp_id
deallocate_vp_id-Shrunk hw h v is ne =
    let n = Inv-length hw v in
    let w = v.word in
    let c = v.counted in
    let many = two_listed hw.vp_list h hw.base ne is v.base_listed in
    record {
      sound = deallocate_vp_id-Inv hw h v is ne;
      shrunk_list = refl;
      shrunk_ids = λ x. refl;
      shrunk_num = u16-pred hw.num_vhosts (omega arith) (omega arith);
      shrunk_base = refl;
      shrunk_max = refl;
      shrunk_current = omega arith;
    }

Shrunk-after : {a b c : Hosts} {h : ℕ} → Same a b → Shrunk b c h → Shrunk a c h
Shrunk-after {a} {b} {c} {h} s k = record {
  sound = k.sound;
  shrunk_list = k.shrunk_list ∙ ap (remove h) s.same_list;
  shrunk_ids = λ x. k.shrunk_ids x ∙ s.same_id x;
  shrunk_num = k.shrunk_num ∙ s.same_num;
  shrunk_base = k.shrunk_base ∙ s.same_base;
  shrunk_max = k.shrunk_max ∙ s.same_max;
  shrunk_current = omega (arith, k.shrunk_current, s.more_current);
}

Shrunk-before : {a b c : Hosts} {h : ℕ} → Shrunk a b h → Same b c → Shrunk a c h
Shrunk-before {a} {b} {c} {h} k s = record {
  sound = Same-Inv b c s k.sound;
  shrunk_list = s.same_list ∙ k.shrunk_list;
  shrunk_ids = λ x. s.same_id x ∙ k.shrunk_ids x;
  shrunk_num = ap (λ n. n + 1) s.same_num ∙ k.shrunk_num;
  shrunk_base = s.same_base ∙ k.shrunk_base;
  shrunk_max = s.same_max ∙ k.shrunk_max;
  shrunk_current = omega (arith, k.shrunk_current, s.more_current);
}
