-- ===== src/Vport/Book.antt =====
-- The book of ids that qla24xx_allocate_vp_id and qla24xx_deallocate_vp_id keep: the map, the list
-- of hosts and the counts agree.
pub mod Count
pub mod Keep
use scst_qla2xxx.Base.{
  ℕ, zero, suc, ◌+◌, ◌-◌, ◌≤◌, ◌<◌, ◌≡◌, ◌≢◌, refl, ap, Bool, true, false, Option, none, some, List,
  [], ◌∷◌, ◌++◌, arith, ◌==◌, if◌then◌else◌, ℕ_discrete,
}
use scst_qla2xxx.Base.Lists.{length}
use scst_qla2xxx.Vport.{Hosts}
use scst_qla2xxx.Vport.Ids.{remove}

abbrev pub one_if : Bool → ℕ
one_if b = if b then 1 else 0

-- How many hosts of a list have the id `j`, if `idx` gives the id of a host.
unfoldable pub uses : (ℕ → ℕ) → List ℕ → ℕ → ℕ
uses idx [] j = 0
uses idx (h ∷ hs) j = one_if (idx h == j) + uses idx hs j

-- How often a host is in a list.
unfoldable pub listed : ℕ → List ℕ → ℕ
listed h [] = 0
listed h (x ∷ xs) = one_if (x == h) + listed h xs

-- The ids of the hosts.
abbrev pub ids : Hosts → ℕ → ℕ
ids hw h = (hw.hosts h).vp_idx

pub record Inv (hw : Hosts) : Type 0 where
  pub word : hw.max_npiv_vports < 65535
  pub used : (j : ℕ) → uses (ids hw) hw.vp_list j ≡ one_if (hw.vp_idx_map j)
  pub bounded : (j : ℕ) → hw.vp_idx_map j ≡ true → j ≤ hw.max_npiv_vports
  pub base_listed : listed hw.base hw.vp_list ≡ 1
  pub base_id : (hw.hosts hw.base).vp_idx ≡ 0
  pub counted : length hw.vp_list ≡ hw.num_vhosts + 1

module _ (idx : ℕ → ℕ) where
  pub uses-append :
      (xs : List ℕ) (h j : ℕ) → uses idx (xs ++ (h ∷ [])) j ≡ uses idx xs j + one_if (idx h == j)
  unfolding uses
  uses-append [] h j = omega arith
  uses-append (x ∷ xs) h j = omega (arith, uses-append xs h j)

  pub uses-remove :
      (xs : List ℕ) (h j : ℕ)
      → 0 < listed h xs
      → uses idx (remove h xs) j + one_if (idx h == j) ≡ uses idx xs j
  unfolding uses listed remove
  uses-remove [] h j lt = absurd (omega arith)
  uses-remove (x ∷ xs) h j lt =
      let rec : 0 < listed h xs → uses idx (remove h xs) j + one_if (idx h == j) ≡ uses idx xs j =
        uses-remove xs h j in
      elim (ℕ_discrete x h) [ yes e ↦ ground (arith, ap idx e) | no e ↦ ground arith ]

  -- A host that is in the list has its id used.
  pub uses-listed : (xs : List ℕ) (h : ℕ) → listed h xs ≤ uses idx xs (idx h)
  unfolding uses listed
  uses-listed [] h = omega arith
  uses-listed (x ∷ xs) h = elim (ℕ_discrete x h) [
    | yes e ↦ ground (arith, ap idx e, uses-listed xs h)
    | no e ↦ ground (arith, uses-listed xs h)
  ]

pub listed-append :
    (xs : List ℕ) (y h : ℕ) → listed h (xs ++ (y ∷ [])) ≡ listed h xs + one_if (y == h)
unfolding listed
listed-append [] y h = omega arith
listed-append (x ∷ xs) y h = omega (arith, listed-append xs y h)

pub listed-remove : (xs : List ℕ) (y h : ℕ) → y ≢ h → listed h (remove y xs) ≡ listed h xs
unfolding listed remove
listed-remove [] y h ne = refl
listed-remove (x ∷ xs) y h ne =
    let rec : listed h (remove y xs) ≡ listed h xs = listed-remove xs y h ne in ground arith

pub length-remove : (xs : List ℕ) (h : ℕ) → 0 < listed h xs → length (remove h xs) + 1 ≡ length xs
unfolding listed remove
length-remove [] h lt = absurd (omega arith)
length-remove (x ∷ xs) h lt =
    let rec : 0 < listed h xs → length (remove h xs) + 1 ≡ length xs = length-remove xs h in
    ground arith

-- Only the ids of the hosts in the list matter.
pub uses-same :
    (idx idx' : ℕ → ℕ) (xs : List ℕ) (h j : ℕ)
    → ((x : ℕ) → x ≢ h → idx' x ≡ idx x)
    → listed h xs ≡ 0
    → uses idx' xs j ≡ uses idx xs j
unfolding uses listed
uses-same idx idx' [] h j same un = refl
uses-same idx idx' (x ∷ xs) h j same un =
    let rec : listed h xs ≡ 0 → uses idx' xs j ≡ uses idx xs j = uses-same idx idx' xs h j same in
    elim (ℕ_discrete x h) [ yes e ↦ ground arith | no e ↦ ground (arith, same x e) ]

pub uses-ext :
    (idx idx' : ℕ → ℕ) (xs : List ℕ) (j : ℕ)
    → ((x : ℕ) → idx' x ≡ idx x)
    → uses idx' xs j ≡ uses idx xs j
unfolding uses
uses-ext idx idx' [] j same = refl
uses-ext idx idx' (x ∷ xs) j same = ground (arith, same x, uses-ext idx idx' xs j same)
