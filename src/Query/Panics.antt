-- ===== src/Query/Panics.antt =====
-- Code that may panic: `none` stands for the panic.
use data_lib.Common.{◌≡◌, refl, Option, none, some}

infixl 5 ◌>>=◌
abbrev pub ◌>>=◌ {ℓ κ} : {A : Type ℓ} {B : Type κ} → Option A → (A → Option B) → Option B
none >>= step = none
some a >>= step = step a

pub >>=-eq-some {ℓ κ} :
    {A : Type ℓ} {B : Type κ} {y : B} (run : Option A) (step : A → Option B)
    → (run >>= step) ≡ some y
    → (x : A) × (run ≡ some x) × (step x ≡ some y)
>>=-eq-some none step h = cc
>>=-eq-some (some x) step h = (x, refl, h)
