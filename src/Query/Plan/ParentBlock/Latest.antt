-- ===== src/Query/Plan/ParentBlock/Latest.antt =====
-- Which block `check_parent_block` of plan/plan.rs compares.
use data_lib.Query.Plan.ParentBlock.{
  HeaderTable, read_refs, insert_ref, sort_refs, check_parent_block,
}
use data_lib.Storage.Data.{BlockRef}
use data_lib.Common.{
  ℕ, ◌≤◌, ◌<◌, ◌≡◌, ◌↔◌, refl, sym, ap, ◌∙◌, String, Bool, true, false, Option, none, some, List,
  [], ◌∷◌, ◌++◌, leb, ltb, str_eq, eq_iff, if◌then◌else◌, ok, last?, arith, All, All-append, subst,
  ◌⊎◌, Bool-cases, inl, inr,
}

-- The block of the highest number, the last one read among those of that number.
abbrev pub IsLatest : BlockRef → List BlockRef → Type 0
IsLatest r refs =
    (before : List BlockRef) × (after : List BlockRef) × (refs ≡ before ++ (r ∷ after))
    × (All (λ x. x.number ≤ r.number) before)
    × (All (λ x. x.number < r.number) after)

abbrev later_of : BlockRef → Option BlockRef → BlockRef
later_of r none = r
later_of r (some best) = if ltb best.number r.number then r else best

abbrev latest : List BlockRef → Option BlockRef
latest [] = none
latest (r ∷ refs) = some (later_of r (latest refs))

abbrev IsSorted : List BlockRef → Type 0
IsSorted [] = Unit
IsSorted (x ∷ xs) = (All (λ y. x.number ≤ y.number) xs) × (IsSorted xs)

All-insert_ref :
    (n : ℕ) (r : BlockRef) (xs : List BlockRef)
    → n ≤ r.number
    → All (λ y. n ≤ y.number) xs
    → All (λ y. n ≤ y.number) (insert_ref r xs)
unfolding insert_ref
All-insert_ref n r [] h a = (h, tt)
All-insert_ref n r (x ∷ xs) h a = elim (Bool-cases (leb r.number x.number)) [
  | inl q ↦ rw (q) (h, a)
  | inr q ↦ rw (q) (a.0, All-insert_ref n r xs h a.1)
]

All-le :
    (n m : ℕ) (xs : List BlockRef) → n ≤ m → All (λ y. m ≤ y.number) xs → All (λ y. n ≤ y.number) xs
All-le n m [] h a = tt
All-le n m (x ∷ xs) h a = (omega (arith, a.0), All-le n m xs h a.1)

insert_ref-IsSorted : (r : BlockRef) (xs : List BlockRef) → IsSorted xs → IsSorted (insert_ref r xs)
unfolding insert_ref
insert_ref-IsSorted r [] s = (tt, tt)
insert_ref-IsSorted r (x ∷ xs) s = elim (Bool-cases (leb r.number x.number)) [
  | inl q ↦
      let below : r.number ≤ x.number = ground (arith, q) in
      rw (q) ((below, All-le r.number x.number xs below s.0), s)
  | inr q ↦
      rw (q) (All-insert_ref x.number r xs (ground (arith, q)) s.0, insert_ref-IsSorted r xs s.1)
]

pub sort_refs-IsSorted : (refs : List BlockRef) → IsSorted (sort_refs refs)
unfolding sort_refs
sort_refs-IsSorted [] = tt
sort_refs-IsSorted (r ∷ refs) = insert_ref-IsSorted r (sort_refs refs) (sort_refs-IsSorted refs)

last?-cons :
    (n : ℕ) (y : BlockRef) (ys : List BlockRef)
    → All (λ z. n ≤ z.number) (y ∷ ys)
    → (best : BlockRef) × (last? (y ∷ ys) ≡ some best) × (n ≤ best.number)
last?-cons n y [] a = (y, refl, a.0)
last?-cons n y (z ∷ ys) a = last?-cons n z ys a.1

last?-insert_ref_cons :
    (x r : BlockRef) (xs : List BlockRef) → last? (x ∷ insert_ref r xs) ≡ last? (insert_ref r xs)
unfolding insert_ref
last?-insert_ref_cons x r [] = refl
last?-insert_ref_cons x r (y ∷ ys) = elim (Bool-cases (leb r.number y.number)) [
  | inl q ↦ rw (q) refl
  | inr q ↦ rw (q) refl
]

later_of-le : (r best : BlockRef) → r.number ≤ best.number → later_of r (some best) ≡ best
later_of-le r best h = let q : ltb best.number r.number ≡ false = ground arith in rw (q) refl

-- The last element after an insertion.
last?-insert_ref :
    (r : BlockRef) (xs : List BlockRef)
    → IsSorted xs
    → last? (insert_ref r xs) ≡ some (later_of r (last? xs))
last?-insert_ref r [] s = unfold insert_ref in refl
last?-insert_ref r (x ∷ xs) s =
    at _ refl (last?-cons x.number x xs (omega arith, s.0)) (last?-insert_ref r xs s.1)
  where
    stays : leb r.number x.number ≡ true → insert_ref r (x ∷ xs) ≡ r ∷ x ∷ xs
    stays q = unfold insert_ref in rw (q) refl

    moves : leb r.number x.number ≡ false → insert_ref r (x ∷ xs) ≡ x ∷ insert_ref r xs
    moves q = unfold insert_ref in rw (q) refl

    at :
        (b : Bool)
        → leb r.number x.number ≡ b
        → (best : BlockRef) × (last? (x ∷ xs) ≡ some best) × (x.number ≤ best.number)
        → last? (insert_ref r xs) ≡ some (later_of r (last? xs))
        → last? (insert_ref r (x ∷ xs)) ≡ some (later_of r (last? (x ∷ xs)))
    at true q (best, e, l) ih =
        let h : r.number ≤ best.number = ground (arith, q, l) in
        rw (stays q, e, later_of-le r best h) refl
    at false q found ih = rw (moves q) (last?-insert_ref_cons x r xs ∙ ih ∙ end xs s)
      where
        end :
            (xs : List BlockRef)
            → IsSorted (x ∷ xs)
            → some (later_of r (last? xs)) ≡ some (later_of r (last? (x ∷ xs)))
        end [] s = let h : ltb x.number r.number ≡ true = ground (arith, q) in rw (h) refl
        end (y ∷ ys) s = refl

-- Sorting brings the latest block to the end.
last?-sort_refs : (refs : List BlockRef) → last? (sort_refs refs) ≡ latest refs
unfolding sort_refs
last?-sort_refs [] = refl
last?-sort_refs (r ∷ refs) =
    last?-insert_ref r (sort_refs refs) (sort_refs-IsSorted refs)
    ∙ ap (λ o. some (later_of r o)) (last?-sort_refs refs)

All-below :
    (n m : ℕ) (xs : List BlockRef) → n < m → All (λ x. x.number ≤ n) xs → All (λ x. x.number < m) xs
All-below n m [] h a = tt
All-below n m (x ∷ xs) h a = (omega (arith, a.0), All-below n m xs h a.1)

All-under :
    (n m : ℕ) (xs : List BlockRef) → n < m → All (λ x. x.number < n) xs → All (λ x. x.number < m) xs
All-under n m [] h a = tt
All-under n m (x ∷ xs) h a = (omega (arith, a.0), All-under n m xs h a.1)

latest-IsLatest : (refs : List BlockRef) (r : BlockRef) → latest refs ≡ some r → IsLatest r refs
latest-IsLatest [] r e = absurd cc
latest-IsLatest (x ∷ []) r e = let same : x ≡ r = cc in ([], [], ap (λ t. t ∷ []) same, tt, tt)
latest-IsLatest (x ∷ y ∷ refs) r e =
    at (later_of y (latest refs)) _ refl
      (latest-IsLatest (y ∷ refs) (later_of y (latest refs)) refl) e
  where
    at :
        (b : BlockRef) (c : Bool)
        → ltb b.number x.number ≡ c
        → IsLatest b (y ∷ refs)
        → some (if ltb b.number x.number then x else b) ≡ some r
        → IsLatest r (x ∷ y ∷ refs)
    at b true q (before, after, f, p, u) e =
        let t : some x ≡ some r = rw (q) at e in
        let same : x ≡ r = cc in
        let h : b.number < x.number = ground (arith, q) in
        subst (λ r. IsLatest r (x ∷ y ∷ refs)) same
          (
            [],
            y ∷ refs,
            refl,
            tt,
            subst (All (λ z. z.number < x.number)) (sym f) (
                All-append (λ (z : BlockRef). z.number < x.number) before (b ∷ after)
                  (All-below b.number x.number before h p)
                  (h, All-under b.number x.number after h u)),
          )
    at b false q (before, after, f, p, u) e =
        let t : some b ≡ some r = rw (q) at e in
        let same : b ≡ r = cc in
        let h : x.number ≤ b.number = ground (arith, q) in
        subst (λ r. IsLatest r (x ∷ y ∷ refs)) same
          (x ∷ before, after, ap (λ t. x ∷ t) f, (h, p), u)

under_latest :
    (n : ℕ) (refs : List BlockRef)
    → All (λ x. x.number < n) refs
    → (latest refs ≡ none) ⊎ ((b : BlockRef) × (latest refs ≡ some b) × (b.number < n))
under_latest n [] a = inl refl
under_latest n (x ∷ refs) a = elim (under_latest n refs a.1) [
  | inl e ↦ inr (x, rw (e) refl, a.0)
  | inr (b, e, h) ↦ inr (at b e h (Bool-cases (ltb b.number x.number)))
]
  where
    at :
        (b : BlockRef)
        → latest refs ≡ some b
        → b.number < n
        → (ltb b.number x.number ≡ true) ⊎ (ltb b.number x.number ≡ false)
        → (c : BlockRef) × (latest (x ∷ refs) ≡ some c) × (c.number < n)
    at b e h (inl q) = (x, rw (e, q) refl, a.0)
    at b e h (inr q) = (b, rw (e, q) refl, h)

IsLatest-latest :
    (r : BlockRef) (before after : List BlockRef)
    → All (λ x. x.number ≤ r.number) before
    → All (λ x. x.number < r.number) after
    → latest (before ++ (r ∷ after)) ≡ some r
IsLatest-latest r [] after p u = elim (under_latest r.number after u) [
  | inl e ↦ rw (e) refl
  | inr (b, e, h) ↦ let q : ltb b.number r.number ≡ true = ground arith in rw (e, q) refl
]
IsLatest-latest r (x ∷ before) after p u =
    rw (IsLatest-latest r before after p.1 u) (ap some (later_of-le x r p.0))

-- With an expected parent hash and the number of the first block, `check_parent_block` accepts exactly
-- when the rows that it reads have a latest block, the last one of the highest number, and this block
-- has the expected hash.
pub check_parent_block-IsLatest :
    (t : HeaderTable) (parent_hash : String) (block_number : ℕ)
    → (check_parent_block t (some parent_hash) (some block_number) ≡ ok tt)
      ↔ ((r : BlockRef) × (IsLatest r (read_refs t block_number)) × (r.hash ≡ parent_hash))
unfolding check_parent_block
check_parent_block-IsLatest t h n = (accepts _ (last?-sort_refs (read_refs t n)), accepted)
  where
    accepts :
        (o : Option BlockRef)
        → last? (sort_refs (read_refs t n)) ≡ o
        → check_parent_block t (some h) (some n) ≡ ok tt
        → (r : BlockRef) × (IsLatest r (read_refs t n)) × (r.hash ≡ h)
    accepts none e q = absurd (let g = rw (check_parent_block, e) at q in cc)
    accepts (some r) e q = (
      r,
      latest-IsLatest (read_refs t n) r (sym (last?-sort_refs (read_refs t n)) ∙ e),
      same (Bool-cases (str_eq r.hash h)),
    )
      where
        same : (str_eq r.hash h ≡ true) ⊎ (str_eq r.hash h ≡ false) → r.hash ≡ h
        same (inl f) = (eq_iff r.hash h).0 f
        same (inr f) = absurd (let g = rw (check_parent_block, e, f) at q in cc)

    accepted :
        (r : BlockRef) × (IsLatest r (read_refs t n)) × (r.hash ≡ h)
        → check_parent_block t (some h) (some n) ≡ ok tt
    accepted (r, (before, after, f, p, u), q) =
        let last =
          last?-sort_refs (read_refs t n) ∙ ap latest f ∙ IsLatest-latest r before after p u in
        rw (check_parent_block, last, (eq_iff r.hash h).1 q) refl
