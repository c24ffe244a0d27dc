-- ===== src/Query/Rel/Sort.antt =====
-- `sort_by_address` of plan/rel.rs.
use mathlib.Core.List.{Perm}
use mathlib.Core.List.Perm
use data_lib.Query.Rows.{any, filter}
use data_lib.Query.Rel.{Entry, Group, address_le, insert_entry, sort_by_address}
use data_lib.Query.Rel.Address.{IsBefore, IsBefore-trans, address_le_antisymm}
use data_lib.Common.{
  ◌≡◌, ◌≢◌, refl, Bool, true, false, ◌||◌, List, [], ◌∷◌, arith, All, Bool-cases, inl, inr,
  if◌then◌else◌,
}

abbrev pub IsAscending : Group → Type 0
IsAscending [] = Unit
IsAscending (e ∷ es) = (All (λ x. IsBefore e.address x.address) es) × (IsAscending es)

-- No two rows of the group stand at one address.
abbrev pub IsDistinct : Group → Type 0
IsDistinct [] = Unit
IsDistinct (e ∷ es) = (All (λ x. e.address ≢ x.address) es) × (IsDistinct es)

module _ (p : Entry → Bool) where
  any-insert_entry : (e : Entry) (g : Group) → any p (insert_entry e g) ≡ p e || any p g
  unfolding insert_entry any
  any-insert_entry e [] = refl
  any-insert_entry e (x ∷ xs) = ground (arith, any-insert_entry e xs)

  pub any-sort_by_address : (g : Group) → any p (sort_by_address g) ≡ any p g
  unfolding sort_by_address any
  any-sort_by_address [] = refl
  any-sort_by_address (e ∷ es) =
      ground (arith, any-insert_entry e (sort_by_address es), any-sort_by_address es)

  filter-insert_entry :
      (e : Entry) (g : Group) → Perm (filter p (insert_entry e g)) (filter p (e ∷ g))
  unfolding insert_entry filter
  filter-insert_entry e [] = Perm.rfl
  filter-insert_entry e (x ∷ xs) = elim (Bool-cases (address_le e.address x.address)) [
    | inl q ↦ rw (q) Perm.rfl
    | inr q ↦ rw (q) (at (p e) (p x) (filter-insert_entry e xs))
  ]
    where
      at :
          (b c : Bool)
          → Perm (filter p (insert_entry e xs)) (if b then e ∷ filter p xs else filter p xs)
          → Perm (if c then x ∷ filter p (insert_entry e xs) else filter p (insert_entry e xs)) (
              if b
              then e ∷ (if c then x ∷ filter p xs else filter p xs)
              else if c
              then x ∷ filter p xs
              else filter p xs)
      at true true h = Perm.trans (Perm.cons x h) (Perm.swap _ _ _)
      at true false h = h
      at false true h = Perm.cons x h
      at false false h = h

  pub filter-sort_by_address : (g : Group) → Perm (filter p (sort_by_address g)) (filter p g)
  unfolding sort_by_address filter
  filter-sort_by_address [] = Perm.rfl
  filter-sort_by_address (e ∷ es) =
      Perm.trans (filter-insert_entry e (sort_by_address es)) (at (p e) (filter-sort_by_address es))
    where
      at :
          (b : Bool)
          → Perm (filter p (sort_by_address es)) (filter p es)
          → Perm
              (if b then e ∷ filter p (sort_by_address es) else filter p (sort_by_address es))
              (if b then e ∷ filter p es else filter p es)
      at true h = Perm.cons e h
      at false h = h

All-map {ℓ κ μ} :
    {A : Type ℓ} {P : A → Type κ} {Q : A → Type μ} (xs : List A)
    → ((x : A) → P x → Q x)
    → All P xs
    → All Q xs
All-map [] f h = tt
All-map (x ∷ xs) f h = (f x h.0, All-map xs f h.1)

All-insert_entry {ℓ} :
    (P : Entry → Type ℓ) (e : Entry) (g : Group) → P e → All P g → All P (insert_entry e g)
unfolding insert_entry
All-insert_entry P e [] pe h = (pe, tt)
All-insert_entry P e (x ∷ xs) pe h = elim (Bool-cases (address_le e.address x.address)) [
  | inl q ↦ rw (q) (pe, h)
  | inr q ↦ rw (q) (h.0, All-insert_entry P e xs pe h.1)
]

All-sort_by_address {ℓ} : (P : Entry → Type ℓ) (g : Group) → All P g → All P (sort_by_address g)
unfolding sort_by_address
All-sort_by_address P [] h = tt
All-sort_by_address P (e ∷ es) h =
    All-insert_entry P e (sort_by_address es) h.0 (All-sort_by_address P es h.1)

insert_entry-IsAscending :
    (e : Entry) (g : Group)
    → All (λ x. e.address ≢ x.address) g
    → IsAscending g
    → IsAscending (insert_entry e g)
unfolding insert_entry
insert_entry-IsAscending e [] d s = (tt, tt)
insert_entry-IsAscending e (x ∷ xs) d s = elim (Bool-cases (address_le e.address x.address)) [
  | inl q ↦
      let first = before q in
      rw (q)
        ((first, All-map xs (λ y k. IsBefore-trans e.address x.address y.address first k) s.0), s)
  | inr q ↦ rw (q) (
    All-insert_entry (λ y. IsBefore x.address y.address) e xs q s.0,
    insert_entry-IsAscending e xs d.1 s.1,
  )
]
  where
    before : address_le e.address x.address ≡ true → IsBefore e.address x.address
    before q = elim (Bool-cases (address_le x.address e.address)) [
      | inl k ↦ absurd (d.0 (address_le_antisymm e.address x.address q k))
      | inr k ↦ k
    ]

pub sort_by_address-IsAscending : (g : Group) → IsDistinct g → IsAscending (sort_by_address g)
unfolding sort_by_address
sort_by_address-IsAscending [] d = tt
sort_by_address-IsAscending (e ∷ es) d =
    insert_entry-IsAscending e (sort_by_address es)
      (All-sort_by_address (λ x. e.address ≢ x.address) es d.0) (sort_by_address-IsAscending es d.1)
