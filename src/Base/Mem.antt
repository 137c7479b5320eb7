-- ===== src/Base/Mem.antt =====
-- Memory as functions of an address, and the update of one place.
use scst_qla2xxx.Base.{ℕ, ◌≡◌, ◌≢◌, arith, ◌==◌, if◌then◌else◌}

module _ {ℓ} {A : Type ℓ} where
  abbrev pub update : (ℕ → A) → ℕ → A → ℕ → A
  update m k v j = if k == j then v else m j

  pub update_self : (m : ℕ → A) (k : ℕ) (v : A) → update m k v k ≡ v
  update_self m k v = ground arith

  pub update_ne : (m : ℕ → A) {k j : ℕ} (v : A) → k ≢ j → update m k v j ≡ m j
  update_ne m v h = ground arith
