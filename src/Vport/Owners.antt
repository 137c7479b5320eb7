-- ===== src/Vport/Owners.antt =====
-- The abstract view of the book of ids: which host owns which id. A port takes the least id that no
-- one owns, and gives it back.
use scst_qla2xxx.Base.{
  ℕ, ◌≤◌, ◌<◌, ◌≡◌, ◌≢◌, refl, ap, Option, none, some, List, [], ◌∷◌, ◌++◌, arith, ◌==◌,
  if◌then◌else◌, ℕ_discrete,
}
use scst_qla2xxx.Vport.{Hosts}
use scst_qla2xxx.Vport.Ids.{remove}
use scst_qla2xxx.Vport.Book.{uses, listed, ids, uses-listed}

-- The first host of the list with an id.
unfoldable pub owner_in : (ℕ → ℕ) → List ℕ → ℕ → Option ℕ
owner_in idx [] j = none
owner_in idx (h ∷ hs) j = let rest = owner_in idx hs j in if idx h == j then some h else rest

unfoldable pub owner : Hosts → ℕ → Option ℕ
unfolding owner_in
owner hw j = owner_in (ids hw) hw.vp_list j

-- The steps of the abstract view, for ids up to `max`.
pub data Turn (max : ℕ) (a b : ℕ → Option ℕ) : Type 0 where
  stay : ((j : ℕ) → b j ≡ a j) → Turn max a b
  acquire :
      (id h : ℕ)
      → id ≤ max
      → a id ≡ none
      → ((j : ℕ) → j < id → a j ≢ none)
      → ((j : ℕ) → b j ≡ (if id == j then some h else a j))
      → Turn max a b
  release :
      (id h : ℕ) → a id ≡ some h → ((j : ℕ) → b j ≡ (if id == j then none else a j)) → Turn max a b

module _ (idx : ℕ → ℕ) where
  pub owner_in-none : (xs : List ℕ) (j : ℕ) → uses idx xs j ≡ 0 → owner_in idx xs j ≡ none
  unfolding owner_in uses
  owner_in-none [] j e = refl
  owner_in-none (x ∷ xs) j e =
      let rec : uses idx xs j ≡ 0 → owner_in idx xs j ≡ none = owner_in-none xs j in ground arith

  pub owner_in-some : (xs : List ℕ) (j : ℕ) → 0 < uses idx xs j → owner_in idx xs j ≢ none
  unfolding owner_in uses
  owner_in-some [] j lt = absurd (omega arith)
  owner_in-some (x ∷ xs) j lt =
      let rec : 0 < uses idx xs j → owner_in idx xs j ≢ none = owner_in-some xs j in ground arith

  pub owner_in-append :
      (xs : List ℕ) (h j : ℕ)
      → uses idx xs (idx h) ≡ 0
      → owner_in idx (xs ++ (h ∷ [])) j ≡ (if idx h == j then some h else owner_in idx xs j)
  unfolding owner_in uses
  owner_in-append [] h j e = refl
  owner_in-append (x ∷ xs) h j e =
      let rec : uses idx xs (idx h) ≡ 0
          → owner_in idx (xs ++ (h ∷ [])) j ≡ (if idx h == j then some h else owner_in idx xs j) =
        owner_in-append xs h j in
      ground arith

  -- The only host with its id.
  pub owner_in-listed :
      (xs : List ℕ) (h : ℕ)
      → 0 < listed h xs
      → uses idx xs (idx h) ≤ 1
      → owner_in idx xs (idx h) ≡ some h
  unfolding owner_in uses listed
  owner_in-listed [] h lt le = absurd (omega arith)
  owner_in-listed (x ∷ xs) h lt le =
      let rec : 0 < listed h xs → uses idx xs (idx h) ≤ 1 → owner_in idx xs (idx h) ≡ some h =
        owner_in-listed xs h in
      let many = uses-listed idx xs h in
      elim (ℕ_discrete x h) [ yes e ↦ ground (arith, ap idx e) | no e ↦ ground arith ]

  pub owner_in-remove :
      (xs : List ℕ) (h j : ℕ)
      → 0 < listed h xs
      → uses idx xs (idx h) ≤ 1
      → owner_in idx (remove h xs) j ≡ (if idx h == j then none else owner_in idx xs j)
  unfolding owner_in uses listed remove
  owner_in-remove [] h j lt le = absurd (omega arith)
  owner_in-remove (x ∷ xs) h j lt le =
      let rec : 0 < listed h xs
          → uses idx xs (idx h) ≤ 1
          → owner_in idx (remove h xs) j ≡ (if idx h == j then none else owner_in idx xs j) =
        owner_in-remove xs h j in
      let many = uses-listed idx xs h in
      let free = owner_in-none xs (idx h) in
      elim (ℕ_discrete x h) [
        | yes e ↦ elim (ℕ_discrete (idx h) j) [
          | yes p ↦ ground (arith, ap idx e, ap (owner_in idx xs) p)
          | no p ↦ ground (arith, ap idx e)
        ]
        | no e ↦ ground arith
      ]

pub owner_in-ext :
    (idx idx' : ℕ → ℕ) (xs : List ℕ) (h j : ℕ)
    → ((x : ℕ) → x ≢ h → idx' x ≡ idx x)
    → listed h xs ≡ 0
    → owner_in idx' xs j ≡ owner_in idx xs j
unfolding owner_in listed
owner_in-ext idx idx' [] h j same un = refl
owner_in-ext idx idx' (x ∷ xs) h j same un =
    let rec : listed h xs ≡ 0 → owner_in idx' xs j ≡ owner_in idx xs j =
      owner_in-ext idx idx' xs h j same in
    elim (ℕ_discrete x h) [ yes e ↦ ground arith | no e ↦ ground (arith, same x e) ]

pub owner_in-same :
    (idx idx' : ℕ → ℕ) (xs : List ℕ) (j : ℕ)
    → ((x : ℕ) → idx' x ≡ idx x)
    → owner_in idx' xs j ≡ owner_in idx xs j
unfolding owner_in
owner_in-same idx idx' [] j same = refl
owner_in-same idx idx' (x ∷ xs) j same = ground (arith, same x, owner_in-same idx idx' xs j same)

-- A host that is put at the end and removed again.
pub remove-append : (xs : List ℕ) (h : ℕ) → listed h xs ≡ 0 → remove h (xs ++ (h ∷ [])) ≡ xs
unfolding remove listed
remove-append [] h un = ground arith
remove-append (x ∷ xs) h un =
    let rec : listed h xs ≡ 0 → remove h (xs ++ (h ∷ [])) ≡ xs = remove-append xs h in ground arith
