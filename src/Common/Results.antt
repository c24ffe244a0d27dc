-- ===== src/Common/Results.antt =====
-- `anyhow::Result`: a value or an error, with the chaining that `?` does.
use mathlib.Core.Path.{◌≡◌, refl}
use mathlib.Core.Bool.{Bool, true, false}

pub data Result {δ κ} (Fault : Type δ) (Value : Type κ) : Type (δ ⊔ κ) where
  err : Fault → Result Fault Value
  ok : Value → Result Fault Value

module _ {δ} {Fault : Type δ} where
  infixl 5 ◌>>◌ ◌>>=◌
  abbrev pub ◌>>=◌ {κ ι} :
      {Value : Type κ} {Next : Type ι}
      → Result Fault Value
      → (Value → Result Fault Next)
      → Result Fault Next
  err fault >>= step = err fault
  ok value >>= step = step value

  -- For a statement whose value carries nothing.
  abbrev pub ◌>>◌ {ι} :
      {Next : Type ι} → Result Fault (Unit {0}) → Result Fault Next → Result Fault Next
  first >> second = first >>= λ done. second

  -- `ensure!(cond, error)`
  abbrev pub ensure : Bool → Fault → Result Fault (Unit {0})
  ensure false fault = err fault
  ensure true fault = ok tt

  -- What succeeded in a chain that did.
  pub >>=-eq-ok {κ ι} :
      {Value : Type κ} {Next : Type ι} {y : Next} (run : Result Fault Value)
      (step : Value → Result Fault Next)
      → (run >>= step) ≡ ok y
      → (x : Value) × (run ≡ ok x) × (step x ≡ ok y)
  >>=-eq-ok (err fault) step chained = cc
  >>=-eq-ok (ok value) step chained = (value, refl, chained)
