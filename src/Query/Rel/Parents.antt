-- ===== src/Query/Rel/Parents.antt =====
-- What `find_parents` of plan/rel.rs yields.
use data_lib.Query.Rows.{contains-append, any-ext, any, filter, contains, any-append}
use data_lib.Query.Rel.{
  Entry, Group, is_parent_address, sort_by_address, pop_to_parent, parents_from, find_parents,
}
use data_lib.Query.Rel.Address.{
  IsBefore, is_parent_address-extends, extends_trans, parent_absent, own_parent_absent,
  parent_between,
}
use data_lib.Query.Rel.Sort.{
  IsAscending, IsDistinct, any-sort_by_address, sort_by_address-IsAscending,
}
use data_lib.Common.{
  ℕ, ◌≡◌, refl, sym, ap, ◌∙◌, Bool, true, false, ◌&&◌, ◌||◌, List, [], ◌∷◌, ◌++◌, map, arith, All,
  Bool-cases, inl, inr, if◌then◌else◌, ◌==◌,
}

-- Below each row of `s` stand ancestors of it alone.
abbrev IsChain : List Entry → Type 0
IsChain [] = Unit
IsChain (top ∷ s) = (All (λ q. is_parent_address q.address top.address ≡ true) s) × (IsChain s)

parent_trans :
    (a b c : List ℕ)
    → is_parent_address a b ≡ true
    → is_parent_address b c ≡ true
    → is_parent_address a c ≡ true
parent_trans a b c h k =
    is_parent_address-extends a c
    ∙ extends_trans a b c (sym (is_parent_address-extends a b) ∙ h)
        (sym (is_parent_address-extends b c) ∙ k)

parents_below :
    (top : Entry) (addr : List ℕ) (s : List Entry)
    → is_parent_address top.address addr ≡ true
    → All (λ q. is_parent_address q.address top.address ≡ true) s
    → All (λ q. is_parent_address q.address addr ≡ true) s
parents_below top addr [] h k = tt
parents_below top addr (q ∷ s) h k =
    (parent_trans q.address top.address addr k.0 h, parents_below top addr s h k.1)

-- After the pops only ancestors are left, in a chain.
pop_to_parent-IsChain :
    (addr : List ℕ) (s : List Entry)
    → IsChain s
    → (All (λ q. is_parent_address q.address addr ≡ true) (pop_to_parent addr s))
      × (IsChain (pop_to_parent addr s))
unfolding pop_to_parent
pop_to_parent-IsChain addr [] c = (tt, tt)
pop_to_parent-IsChain addr (top ∷ s) c = elim (Bool-cases (is_parent_address top.address addr)) [
  | inl q ↦ rw (q) ((q, parents_below top addr s q c.0), c)
  | inr q ↦ rw (q) (pop_to_parent-IsChain addr s c.1)
]

All-pop_to_parent {ℓ} :
    (P : Entry → Type ℓ) (addr : List ℕ) (s : List Entry) → All P s → All P (pop_to_parent addr s)
unfolding pop_to_parent
All-pop_to_parent P addr [] h = tt
All-pop_to_parent P addr (top ∷ s) h = elim (Bool-cases (is_parent_address top.address addr)) [
  | inl q ↦ rw (q) h
  | inr q ↦ rw (q) (All-pop_to_parent P addr s h.1)
]

module _ (r : ℕ) where
  -- `r` is the row of some proper ancestor of `c` in the list.
  unfoldable above : List Entry → Entry → Bool
  unfolding any
  above g c = any (λ q. (q.row == r) && is_parent_address q.address c.address) g

  above-All :
      (c : Entry) (s : List Entry)
      → All (λ q. is_parent_address q.address c.address ≡ true) s
      → contains r (map (λ x. x.row) s) ≡ above s c
  unfolding contains above any
  above-All c [] h = refl
  above-All c (q ∷ s) h = ground (arith, h.0, above-All c s h.1)

  pop_to_parent-above :
      (c : Entry) (s : List Entry)
      → IsChain s
      → contains r (map (λ x. x.row) (pop_to_parent c.address s)) ≡ above s c
  unfolding pop_to_parent
  pop_to_parent-above c [] h = above-All c [] tt
  pop_to_parent-above c (top ∷ s) h = elim (Bool-cases (is_parent_address top.address c.address)) [
    | inl q ↦ rw (q) (above-All c (top ∷ s) (q, parents_below top c.address s q h.0))
    | inr q ↦ rw (q) (pop_to_parent-above c s h.1 ∙ skip q)
  ]
    where
      skip : is_parent_address top.address c.address ≡ false → above s c ≡ above (top ∷ s) c
      skip q = unfold above any in ground (arith, q)

  -- What a row pops is no ancestor of a later row.
  above-pop_to_parent :
      (e x : Entry) (s : List Entry)
      → IsBefore e.address x.address
      → All (λ q. IsBefore q.address e.address) s
      → above (pop_to_parent e.address s) x ≡ above s x
  unfolding pop_to_parent above any
  above-pop_to_parent e x [] k h = refl
  above-pop_to_parent e x (top ∷ s) k h =
      ground (
        arith,
        above-pop_to_parent e x s k h.1,
        parent_between top.address e.address x.address h.0 k,
      )

  above_nowhere :
      (e : Entry) (g : Group) → All (λ x. IsBefore e.address x.address) g → above g e ≡ false
  unfolding above any
  above_nowhere e [] h = refl
  above_nowhere e (x ∷ g) h =
      ground (arith, parent_absent x.address e.address h.0, above_nowhere e g h.1)

  abbrev Tracks : Group → List Entry → Group → Group → Type 0
  Tracks whole s rest = All (λ x. above whole x ≡ above s x || above rest x)

  abbrev Precede : List Entry → Group → Type 0
  Precede s = All (λ x. All (λ q. IsBefore q.address x.address) s)

  tail-Tracks :
      (whole : Group) (s : List Entry) (e : Entry) (rest xs : Group)
      → All (λ q. IsBefore q.address e.address) s
      → All (λ x. IsBefore e.address x.address) xs
      → Tracks whole s (e ∷ rest) xs
      → Tracks whole (e ∷ pop_to_parent e.address s) rest xs
  unfolding above any
  tail-Tracks whole s e rest [] b a t = tt
  tail-Tracks whole s e rest (x ∷ xs) b a t = (
    ground (arith, t.0, above-pop_to_parent e x s a.0 b),
    tail-Tracks whole s e rest xs b a.1 t.1,
  )

  tail-Precede :
      (s : List Entry) (e : Entry) (xs : Group)
      → All (λ x. IsBefore e.address x.address) xs
      → Precede s xs
      → Precede (e ∷ pop_to_parent e.address s) xs
  tail-Precede s e [] a p = tt
  tail-Precede s e (x ∷ xs) a p = (
    (a.0, All-pop_to_parent (λ q. IsBefore q.address x.address) e.address s p.0),
    tail-Precede s e xs a.1 p.1,
  )

  head-Tracks :
      (whole : Group) (s : List Entry) (e : Entry) (rest : Group)
      → IsAscending (e ∷ rest)
      → Tracks whole s (e ∷ rest) (e ∷ rest)
      → above whole e ≡ above s e
  unfolding above any
  head-Tracks whole s e rest a t =
      ground (arith, t.0, own_parent_absent e.address, above_nowhere e rest a.0)

  module _ (children : List ℕ) where
    -- `r` is the row of `c`, or of an ancestor of it, and `c` is selected.
    unfoldable wants : Group → Entry → Bool
    wants whole c = contains c.row children && ((c.row == r) || above whole c)

    parents_from-wants :
        (whole : Group) (s : List Entry) (rest : Group)
        → IsAscending rest
        → IsChain s
        → Precede s rest
        → Tracks whole s rest rest
        → contains r (parents_from children s rest) ≡ any (wants whole) rest
    unfolding parents_from contains any wants
    parents_from-wants whole s [] a c p t = refl
    parents_from-wants whole s (e ∷ rest) a c p t =
        let popped = pop_to_parent-IsChain e.address s c in
        let pushed = e ∷ pop_to_parent e.address s in
        ground (
          arith,
          head-Tracks whole s e rest a t,
          pop_to_parent-above e s c,
          any-append (λ x. x == r) (map (λ x. x.row) pushed) (parents_from children pushed rest),
          parents_from-wants whole pushed rest a.1 popped (tail-Precede s e rest a.0 p.1)
              (tail-Tracks whole s e rest rest p.0 a.0 t.1),
        )

module _ (children : List ℕ) where
  -- The rows that the search is for: each selected row with its ancestors, by a look at the whole
  -- group.
  unfoldable pub lineages : Group → Group → List ℕ
  unfolding filter contains
  lineages whole [] = []
  lineages whole (c ∷ rest) =
      let later = lineages whole rest in
      if contains c.row children
      then c.row
        ∷ (map (λ q. q.row) (filter (λ q. is_parent_address q.address c.address) whole) ++ later)
      else later

  unfoldable pub parents_of : List Group → List ℕ
  unfolding lineages
  parents_of [] = []
  parents_of (g ∷ stack) = lineages g g ++ parents_of stack

contains-ancestors :
    (r : ℕ) (c : Entry) (g : Group)
    → contains r (map (λ q. q.row) (filter (λ q. is_parent_address q.address c.address) g))
      ≡ above r g c
unfolding contains filter above any
contains-ancestors r c [] = refl
contains-ancestors r c (q ∷ g) = ground (arith, contains-ancestors r c g)

contains-lineages :
    (r : ℕ) (children : List ℕ) (whole rest : Group)
    → contains r (lineages children whole rest) ≡ any (wants r children whole) rest
unfolding lineages contains any wants
contains-lineages r children whole [] = refl
contains-lineages r children whole (c ∷ rest) = ground (
  arith,
  contains-ancestors r c whole,
  contains-lineages r children whole rest,
  contains-append r (map (λ q. q.row) (filter (λ q. is_parent_address q.address c.address) whole))
      (lineages children whole rest),
)

parents_from-sort_by_address :
    (r : ℕ) (children : List ℕ) (g : Group)
    → IsDistinct g
    → contains r (parents_from children [] (sort_by_address g)) ≡ contains r (lineages children g g)
parents_from-sort_by_address r children g d =
    let sorted = sort_by_address g in
    parents_from-wants r children sorted [] sorted (sort_by_address-IsAscending g d) tt
      (start sorted) (track sorted)
    ∙ any-ext (wants r children sorted) (wants r children g) same sorted
    ∙ any-sort_by_address (wants r children g) g
    ∙ sym (contains-lineages r children g g)
  where
    start : (xs : Group) → Precede r [] xs
    start [] = tt
    start (x ∷ xs) = (tt, start xs)

    track : (xs : Group) → Tracks r (sort_by_address g) [] (sort_by_address g) xs
    track [] = tt
    track (x ∷ xs) = (unfold above any in refl, track xs)

    same : (c : Entry) → wants r children (sort_by_address g) c ≡ wants r children g c
    same c =
        unfold wants above in
        ap (λ b. contains c.row children && ((c.row == r) || b))
          (any-sort_by_address (λ q. (q.row == r) && is_parent_address q.address c.address) g)

-- Where no two rows of a group stand at one address, the set that `find_parents` yields holds
-- exactly the selected rows of the stack and their proper ancestors in their groups.
pub find_parents-parents_of :
    (children : List ℕ) (stack : List Group) (r : ℕ)
    → All IsDistinct stack
    → contains r (find_parents children stack) ≡ contains r (parents_of children stack)
unfolding find_parents parents_of
find_parents-parents_of children [] r d = refl
find_parents-parents_of children (g ∷ stack) r d = ground (
  arith,
  contains-append r (parents_from children [] (sort_by_address g)) (find_parents children stack),
  contains-append r (lineages children g g) (parents_of children stack),
  parents_from-sort_by_address r children g d.0,
  find_parents-parents_of children stack r d.1,
)
