-- ===== src/Base/Options.antt =====
-- A predicate of the value of an option, which holds where there is none.
use scst_qla2xxx.Base.{Option, none, some, ◌≡◌, refl, Bool, true, false, if◌then◌else◌}
use mathlib.Core.Path.{subst}

abbrev pub Each {ℓ κ} : {A : Type ℓ} → (A → Type κ) → Option A → Type κ
Each P none = Unit
Each P (some a) = P a

pub Each-intro {ℓ κ} :
    {A : Type ℓ} (P : A → Type κ) (o : Option A) → ((a : A) → o ≡ some a → P a) → Each P o
Each-intro P none h = tt
Each-intro P (some a) h = h a refl

pub Each-elim {ℓ κ} :
    {A : Type ℓ} (P : A → Type κ) (o : Option A) {a : A} → Each P o → o ≡ some a → P a
Each-elim P o {a} e p = subst (Each P) p e

pub Each-map {ℓ κ κ'} :
    {A : Type ℓ} (P : A → Type κ) (Q : A → Type κ') (o : Option A)
    → ((a : A) → P a → Q a)
    → Each P o
    → Each Q o
Each-map P Q none h e = tt
Each-map P Q (some a) h e = h a e

pub if-Each {ℓ κ} :
    {A : Type ℓ} (P : A → Type κ) (b : Bool) (x y : Option A)
    → (b ≡ true → Each P x)
    → (b ≡ false → Each P y)
    → Each P (if b then x else y)
if-Each P true x y p q = p refl
if-Each P false x y p q = q refl
