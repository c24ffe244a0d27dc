-- ===== src/Query/Rows.antt =====
-- Row sets of plan/row_list.rs, and the searches on lists that the plan's files share.
use data_lib.Query.Panics.{◌>>=◌}
use data_lib.Common.{
  some, none, Option, ℕ, suc, ◌≡◌, refl, Bool, false, ◌||◌, List, [], ◌∷◌, ◌++◌, ◌==◌,
  if◌then◌else◌, arith,
}

module _ {ℓ} {A : Type ℓ} where
  unfoldable pub any : (A → Bool) → List A → Bool
  any p [] = false
  any p (x ∷ xs) = p x || any p xs

  unfoldable pub filter : (A → Bool) → List A → List A
  filter p [] = []
  filter p (x ∷ xs) = let rest = filter p xs in if p x then x ∷ rest else rest

-- `RowList` and the sets of rows: only membership is read.
unfoldable pub contains : ℕ → List ℕ → Bool
unfolding any
contains r rows = any (λ x. x == r) rows

module _ {ℓ} {A : Type ℓ} where
  pub any-append : (p : A → Bool) (xs ys : List A) → any p (xs ++ ys) ≡ any p xs || any p ys
  unfolding any
  any-append p [] ys = refl
  any-append p (x ∷ xs) ys = ground (arith, any-append p xs ys)

  pub filter-append :
      (p : A → Bool) (xs ys : List A) → filter p (xs ++ ys) ≡ filter p xs ++ filter p ys
  unfolding filter
  filter-append p [] ys = refl
  filter-append p (x ∷ xs) ys = ground (arith, filter-append p xs ys)

  pub filter-ext :
      (p q : A → Bool) → ((x : A) → p x ≡ q x) → (xs : List A) → filter p xs ≡ filter q xs
  unfolding filter
  filter-ext p q h [] = refl
  filter-ext p q h (x ∷ xs) = ground (arith, h x, filter-ext p q h xs)

  pub any-ext : (p q : A → Bool) → ((x : A) → p x ≡ q x) → (xs : List A) → any p xs ≡ any q xs
  unfolding any
  any-ext p q h [] = refl
  any-ext p q h (x ∷ xs) = ground (arith, h x, any-ext p q h xs)

  -- The index of the first element that passes the test.
  unfoldable pub position : (A → Bool) → List A → Option ℕ
  position p [] = none
  position p (x ∷ xs) =
      let later = position p xs >>= λ i. some (suc i) in if p x then some 0 else later

  -- `remove_elements` of plan/plan.rs: `none` where the mask is too short.
  unfoldable pub remove_elements : List A → List Bool → Option (List A)
  remove_elements [] mask = some []
  remove_elements (x ∷ xs) [] = none
  remove_elements (x ∷ xs) (remove ∷ mask) = do
    rest ← remove_elements xs mask
    some (if remove then rest else x ∷ rest)

pub contains-append :
    (r : ℕ) (xs ys : List ℕ) → contains r (xs ++ ys) ≡ contains r xs || contains r ys
unfolding contains
contains-append r xs ys = any-append (λ x. x == r) xs ys
