-- ===== src/Query/Rel/Address.antt =====
-- The order of the addresses of plan/rel.rs, and where the descendants of an address stand in it.
use data_lib.Query.Rel.{address_eq, slice_to, is_parent_address, address_le}
use data_lib.Common.{
  sym, ◌∙◌, Bool-cases, inl, inr, ℕ, ◌≡◌, refl, Bool, true, false, ◌&&◌, List, [], ◌∷◌, ◌==◌, arith,
}

-- `is_parent_address` as one pass.
unfoldable pub extends : List ℕ → List ℕ → Bool
extends p [] = false
extends [] (y ∷ c) = true
extends (x ∷ p) (y ∷ c) = (x == y) && extends p c

pub is_parent_address-extends : (p c : List ℕ) → is_parent_address p c ≡ extends p c
unfolding is_parent_address extends address_eq slice_to
is_parent_address-extends [] [] = refl
is_parent_address-extends (x ∷ p) [] = ground arith
is_parent_address-extends [] (y ∷ c) = ground arith
is_parent_address-extends (x ∷ p) (y ∷ c) = ground (arith, is_parent_address-extends p c)

-- `a` stands strictly before `b`.
abbrev pub IsBefore : List ℕ → List ℕ → Type 0
IsBefore a b = address_le b a ≡ false

pub IsBefore-trans : (a b c : List ℕ) → IsBefore a b → IsBefore b c → IsBefore a c
unfolding address_le
IsBefore-trans a b [] h k = absurd cc
IsBefore-trans a [] (z ∷ c) h k = absurd cc
IsBefore-trans [] (y ∷ b) (z ∷ c) h k = refl
IsBefore-trans (x ∷ a) (y ∷ b) (z ∷ c) h k = ground (arith, IsBefore-trans a b c)

pub address_le_antisymm : (a b : List ℕ) → address_le a b ≡ true → address_le b a ≡ true → a ≡ b
unfolding address_le
address_le_antisymm [] [] h k = refl
address_le_antisymm [] (y ∷ b) h k = absurd cc
address_le_antisymm (x ∷ a) [] h k = absurd cc
address_le_antisymm (x ∷ a) (y ∷ b) h k = ground (arith, address_le_antisymm a b)

pub IsBefore-irrefl : (a : List ℕ) → address_le a a ≡ true
unfolding address_le
IsBefore-irrefl [] = refl
IsBefore-irrefl (x ∷ a) = ground (arith, IsBefore-irrefl a)

pub extends-IsBefore : (p c : List ℕ) → extends p c ≡ true → IsBefore p c
unfolding address_le extends
extends-IsBefore p [] h = absurd cc
extends-IsBefore [] (y ∷ c) h = refl
extends-IsBefore (x ∷ p) (y ∷ c) h = ground (arith, extends-IsBefore p c)

pub extends_trans : (a b c : List ℕ) → extends a b ≡ true → extends b c ≡ true → extends a c ≡ true
unfolding extends
extends_trans a b [] h k = absurd cc
extends_trans a [] (z ∷ c) h k = absurd cc
extends_trans [] (y ∷ b) (z ∷ c) h k = refl
extends_trans (x ∷ a) (y ∷ b) (z ∷ c) h k = ground (arith, extends_trans a b c)

-- Between an address and its descendant there are only descendants.
pub extends_between :
    (p x y : List ℕ) → IsBefore p x → IsBefore x y → extends p y ≡ true → extends p x ≡ true
unfolding extends address_le
extends_between p [] y h k d = absurd cc
extends_between [] (b ∷ x) y h k d = refl
extends_between (a ∷ p) (b ∷ x) [] h k d = absurd cc
extends_between (a ∷ p) (b ∷ x) (c ∷ y) h k d = ground (arith, extends_between p x y)

-- Nothing at or after `a` in the order is a parent of `a`.
pub parent_absent : (p a : List ℕ) → IsBefore a p → is_parent_address p a ≡ false
parent_absent p a h = elim (Bool-cases (extends p a)) [
  | inl e ↦ absurd (cross (extends-IsBefore p a e))
  | inr e ↦ is_parent_address-extends p a ∙ e
]
  where
    cross : IsBefore p a → ⊥
    cross k = absurd (grind (arith, IsBefore-trans p a p k h, IsBefore-irrefl p))

pub own_parent_absent : (a : List ℕ) → is_parent_address a a ≡ false
own_parent_absent a = elim (Bool-cases (extends a a)) [
  | inl e ↦ absurd (grind (arith, extends-IsBefore a a e, IsBefore-irrefl a))
  | inr e ↦ is_parent_address-extends a a ∙ e
]

pub parent_between :
    (p a b : List ℕ)
    → IsBefore p a
    → IsBefore a b
    → is_parent_address p b ≡ true
    → is_parent_address p a ≡ true
parent_between p a b h k q =
    is_parent_address-extends p a
    ∙ extends_between p a b h k (sym (is_parent_address-extends p b) ∙ q)
