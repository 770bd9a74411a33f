-- ===== src/Prelude/Maps.antt =====
-- A map as a function, and its update.
use Prim.Native.Nat.{ℕ}
use mathlib.Core.Path.{◌≡◌, refl}
use mathlib.Core.Logic.{inl, inr}
use byom.Prelude.Tests.{◌==◌, ==_iff, Bool-cases, if◌then◌else◌}
use byom.Prelude.Texts.{Text, text_eq}

abbrev pub update {ℓ} : {A : Type ℓ} → (ℕ → A) → ℕ → A → ℕ → A
update f i v j = if j == i then v else f j

abbrev pub update_text {ℓ} : {A : Type ℓ} → (Text → A) → Text → A → Text → A
update_text f k v j = if text_eq j k then v else f j

-- What holds of the new value and of the old ones holds after an update.
pub update_holds {ℓ κ} :
    {A : Type ℓ} (P : ℕ → A → Type κ) (f : ℕ → A) (i : ℕ) (v : A) (j : ℕ)
    → P i v
    → P j (f j)
    → P j (update f i v j)
update_holds P f i v j new old = elim (Bool-cases (j == i)) [
  | inl e ↦ rw e (rw ((==_iff j i).0 e) new)
  | inr e ↦ rw e old
]

pub update_self {ℓ} : {A : Type ℓ} (f : ℕ → A) (i : ℕ) (v : A) → update f i v i ≡ v
update_self f i v = rw ((==_iff i i).1 refl)
