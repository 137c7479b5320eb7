-- ===== src/Vport/Reach/Whole.antt =====
-- Every operation on virtual ports, and every sequence of them.
use scst_qla2xxx.Base.{
  ℕ, ◌≡◌, inl, inr, ap, Bool, false, ◌&&◌, Option, none, some, List, arith, Option-cases,
}
use scst_qla2xxx.Vport.{Hosts}
use scst_qla2xxx.Vport.Control.{VpIo}
use scst_qla2xxx.Vport.Create.{
  Request, VpcErr, vpc_ok, vpc_unsupported, vpc_no_fabric_supp, vpc_bad_wwn, sanity_check,
  create_vhost, find_vhost_by_name,
}
use scst_qla2xxx.Vport.Port.{Outside, vport_create, added_vport, with_host, checked}
use scst_qla2xxx.Vport.Book.{listed}
use scst_qla2xxx.Vport.Book.Count.{Inv-length}
use scst_qla2xxx.Vport.Frame.{vport_disable-Same, configure_vp-Same, vp_abort_isp-Same}
use scst_qla2xxx.Vport.Grow.{Grown, Made, create_vhost-Made}
use scst_qla2xxx.Vport.Owners.{owner, Turn}
use scst_qla2xxx.Vport.Reach.{
  Valid, IsNew, Step, create, delete, change, configure, abort, Reach, here, next, Simulated,
  Same-Simulated,
}
use scst_qla2xxx.Vport.Reach.Steps.{
  vport_delete-Simulated, added_vport-Simulated, Kept-Simulated, Valid-Simulated,
}

added_same :
    (out : Outside) (io : VpIo) (a b : Hosts) (disable : Bool) {x h : ℕ}
    → x ≡ h
    → Valid a
    → listed h a.vp_list ≡ 0
    → Grown a b h
    → Simulated a ((added_vport out io b disable x).0)
added_same out io a b disable e v un g = rw e (added_vport-Simulated out io a b disable _ v un g)

with_host-Simulated :
    (out : Outside) (io : VpIo) (a : Hosts) (disable : Bool) (h : ℕ) (r : Hosts × Option ℕ)
    → Valid a
    → listed h a.vp_list ≡ 0
    → Made a h r
    → Simulated a ((with_host out io disable r).0)
unfolding with_host
with_host-Simulated out io a disable h (b, none) v un (inl (e, k)) = Kept-Simulated a b h v un k
with_host-Simulated out io a disable h (b, some x) v un (inl (e, k)) = absurd (ground arith)
with_host-Simulated out io a disable h (b, none) v un (inr (e, g)) = absurd (ground arith)
with_host-Simulated out io a disable h (b, some x) v un (inr (e, g)) =
    let same : x ≡ h = ap (λ o. elim o [ none ↦ h | some y ↦ y ]) e in
    added_same out io a b disable same v un g

host-Simulated :
    (out : Outside) (io : VpIo) (hw : Hosts) (asked : Request) (disable : Bool) (host : Option ℕ)
    → Valid hw
    → IsNew hw host
    → Simulated hw
        ((with_host out io disable (create_vhost out.u64_to_wwn out.params hw asked host)).0)
unfolding create_vhost with_host
host-Simulated out io hw asked disable none v new = Valid-Simulated hw v
host-Simulated out io hw asked disable (some h) v new =
    with_host-Simulated out io hw disable h _ v new
      (create_vhost-Made hw h v.book new out.u64_to_wwn out.params asked)

checked-Simulated :
    (out : Outside) (io : VpIo) (hw : Hosts) (asked : Request) (disable : Bool) (err : VpcErr)
    → Valid hw
    → IsNew hw out.host
    → Simulated hw ((checked out io hw asked disable err).0)
unfolding checked
checked-Simulated out io hw asked disable vpc_ok v new =
    host-Simulated out io hw asked disable out.host v new
checked-Simulated out io hw asked disable vpc_unsupported v new = Valid-Simulated hw v
checked-Simulated out io hw asked disable vpc_no_fabric_supp v new = Valid-Simulated hw v
checked-Simulated out io hw asked disable vpc_bad_wwn v new = Valid-Simulated hw v

Simulated-to : {a b c : Hosts} → c ≡ b → Simulated a b → Simulated a c
Simulated-to {a} e s = rw e s

pub Step-Simulated : (a b : Hosts) → Valid a → Step a b → Simulated a b
unfolding vport_create
Step-Simulated a b v (create out io asked disable new e) =
    Simulated-to e (checked-Simulated out io a asked disable _ v new)
Step-Simulated a b v (delete io h is ne e) = Simulated-to e (vport_delete-Simulated io a h v is ne)
Step-Simulated a b v (change io h disable e) =
    Simulated-to e (Same-Simulated a _ (vport_disable-Same io a h disable) v)
Step-Simulated a b v (configure io h e) =
    Simulated-to e (Same-Simulated a _ (configure_vp-Same io a h) v)
Step-Simulated a b v (abort io h e) =
    Simulated-to e (Same-Simulated a _ (vp_abort_isp-Same io a h) v)

-- From a valid state, each operation on virtual ports, taken as a whole, is a turn of the
-- abstract map from ids to their owners: nothing changes, or a host becomes the owner of the
-- least id that no one owns, or an owner gives its id back.
pub Step-Turn : (a b : Hosts) → Valid a → Step a b → Turn a.max_npiv_vports (owner a) (owner b)
Step-Turn a b v s = (Step-Simulated a b v s).turn

-- From a state where the book of virtual ports is valid, every sequence of creations with new
-- hosts, deletions, enablings, disablings, configurations and aborts, each taken as a whole,
-- reaches a valid one: each id that is set in the map belongs to exactly one host of the list, no
-- host has another id, ids do not exceed the maximum, the count of ports is that of the list, and
-- not more ports are there than are counted as current.
pub Reach-Valid : {a b : Hosts} → Valid a → Reach a b → Valid b
Reach-Valid v here = v
Reach-Valid v (next r s) = (Step-Simulated _ _ (Reach-Valid v r) s).valid

-- In a state that is reached from a valid one, the check of a new virtual port gives
-- VPCERR_UNSUPPORTED only for a role other than initiator or without NPIV, never because too many
-- ports are there.
pub sanity_check_full :
    (u64_to_wwn : ℕ → List ℕ) (a b : Hosts) (asked : Request)
    → Valid a
    → Reach a b
    → sanity_check u64_to_wwn b asked ≡ vpc_unsupported
    → (asked.initiator && b.npiv_supported) ≡ false
unfolding sanity_check
sanity_check_full u64_to_wwn a b asked v r e =
    let valid = Reach-Valid v r in
    let n = Inv-length b valid.book in
    let c = valid.book.counted in
    elim (Option-cases (find_vhost_by_name b (u64_to_wwn asked.port_name))) [
      | inl none_found ↦ ground (arith)
      | inr (h, found) ↦ ground (arith)
    ]
