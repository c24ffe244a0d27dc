-- ===== src/Ranges/Build.antt =====
-- Range lists built from indexes and from given ranges, and what `union` makes of a gap.
use data_lib.Common.{
  ℕ, ◌+◌, ◌≤◌, ◌<◌, ◌≡◌, ◌↔◌, ◌⊎◌, inl, inr, refl, true, false, some, List, [], ◌∷◌, arith, ltb,
  ◌==◌, ok, Bool-cases, min,
}
use data_lib.Ranges.{
  Range, next_index, index_ranges, from_sorted_indexes, try_from, any_empty, any_overlap, union,
  union_pieces, seal, seal_from,
}
use data_lib.Ranges.Cover.{Within, Covers, IsOrderedFrom, IsRangeList}

abbrev pub In : ℕ → List ℕ → Type 0
In n [] = ⊥
In n (i ∷ is) = (n ≡ i) ⊎ In n is

abbrev pub IsAscendingFrom : ℕ → List ℕ → Type 0
IsAscendingFrom k [] = Unit
IsAscendingFrom k (i ∷ is) = (k ≤ i) × IsAscendingFrom (i + 1) is

-- One more than each index is an `ItemIndex` too.
abbrev pub AreBelowMax : List ℕ → Type 0
AreBelowMax [] = Unit
AreBelowMax (i ∷ is) = (i < 4294967295) × AreBelowMax is

next_index_lem : (i : ℕ) → i < 4294967295 → next_index i ≡ i + 1
unfolding next_index
next_index_lem i h = omega arith

-- The running range, and the indexes after it.
pub record Indexed (beg end : ℕ) (idxs : List ℕ) (rs : List Range) : Type 0 where
  pub built : index_ranges beg end idxs ≡ some rs
  pub ordered : IsOrderedFrom beg rs
  pub covers : (n : ℕ) → Covers n rs ↔ (Within n (record { start = beg; end = end }) ⊎ In n idxs)

IsOrderedFrom-lower : (j k : ℕ) (rs : List Range) → j ≤ k → IsOrderedFrom k rs → IsOrderedFrom j rs
IsOrderedFrom-lower j k [] le o = tt
IsOrderedFrom-lower j k (r ∷ rs) le o = (omega (arith, le, o.0), o.1, o.2)

-- The range of one index covers that index.
one_index :
    (n idx : ℕ) (rest : List ℕ) (X : Type 0)
    → (X ↔ (Within n (record { start = idx; end = idx + 1 }) ⊎ In n rest))
    → X ↔ In n (idx ∷ rest)
one_index n idx rest X h = (λ x. there (h.0 x), λ i. h.1 (back i))
  where
    there : Within n (record { start = idx; end = idx + 1 }) ⊎ In n rest → In n (idx ∷ rest)
    there (inl w) = inl (omega (arith, w.0, w.1))
    there (inr i) = inr i

    back : In n (idx ∷ rest) → Within n (record { start = idx; end = idx + 1 }) ⊎ In n rest
    back (inl e) = inl (omega (arith, e), omega (arith, e))
    back (inr i) = inr i

-- The running range grows by the index at its end.
grown :
    (n beg end idx : ℕ) (rest : List ℕ) (X : Type 0)
    → beg < end
    → end ≡ idx
    → (X ↔ (Within n (record { start = beg; end = idx + 1 }) ⊎ In n rest))
    → X ↔ (Within n (record { start = beg; end = end }) ⊎ In n (idx ∷ rest))
grown n beg end idx rest X lt e h = (λ x. there (h.0 x), λ i. h.1 (back i))
  where
    there :
        Within n (record { start = beg; end = idx + 1 }) ⊎ In n rest
        → Within n (record { start = beg; end = end }) ⊎ In n (idx ∷ rest)
    there (inl w) = ground (arith, w, e)
    there (inr i) = inr (inr i)

    back :
        Within n (record { start = beg; end = end }) ⊎ In n (idx ∷ rest)
        → Within n (record { start = beg; end = idx + 1 }) ⊎ In n rest
    back (inl w) = inl (w.0, omega (arith, w.1, e))
    back (inr (inl q)) = inl (omega (arith, lt, q, e), omega (arith, q))
    back (inr (inr i)) = inr i

across : {A B C : Type 0} → (B ↔ C) → ((A ⊎ B) ↔ (A ⊎ C))
across h = (
  λ c. elim c [ inl w ↦ inl w | inr d ↦ inr (h.0 d) ],
  λ c. elim c [ inl w ↦ inl w | inr d ↦ inr (h.1 d) ],
)

index_ranges-Indexed :
    (beg end : ℕ) (idxs : List ℕ)
    → beg < end
    → IsAscendingFrom end idxs
    → AreBelowMax idxs
    → (rs : List Range) × Indexed beg end idxs rs
unfolding index_ranges
index_ranges-Indexed beg end [] lt up below = (
  record { start = beg; end = end } ∷ [],
  record { built = refl; ordered = (omega arith, lt, tt); covers = λ n. ((λ c. c), λ c. c) },
)
index_ranges-Indexed beg end (idx ∷ rest) lt up below = elim (Bool-cases (ltb end idx)) [
  | inl gap ↦
      let (rs, k) = index_ranges-Indexed idx (idx + 1) rest (omega arith) up.1 below.1 in
      (
        record { start = beg; end = end } ∷ rs,
        record {
          built = rw (gap, next_index_lem idx below.0, k.built);
          ordered = (omega arith, lt, IsOrderedFrom-lower end idx rs up.0 k.ordered);
          covers = λ n. across (one_index n idx rest (Covers n rs) (k.covers n));
        },
      )
  | inr next ↦
      let same : (end == idx) ≡ true = ground (arith, up.0) in
      let (rs, k) =
        index_ranges-Indexed beg (idx + 1) rest (omega (arith, lt, up.0)) up.1 below.1 in
      (
        rs,
        record {
          built = rw (next, same, next_index_lem idx below.0, k.built);
          ordered = k.ordered;
          covers = λ n. grown n beg end idx rest (Covers n rs) lt (ground arith) (k.covers n);
        },
      )
]

-- Ascending indexes below 2 ^ 32 - 1, the largest `ItemIndex`, give a range list that covers them and
-- nothing else.
pub from_sorted_indexes-Covers :
    (idxs : List ℕ)
    → IsAscendingFrom 0 idxs
    → AreBelowMax idxs
    → (rs : List Range) × (from_sorted_indexes idxs ≡ some rs)
      × IsRangeList rs
      × ((n : ℕ) → Covers n rs ↔ In n idxs)
unfolding from_sorted_indexes
from_sorted_indexes-Covers [] up below = ([], refl, tt, λ n. ((λ c. c), λ c. c))
from_sorted_indexes-Covers (idx ∷ rest) up below =
    let (rs, k) = index_ranges-Indexed idx (idx + 1) rest (omega arith) up.1 below.1 in
    (
      rs,
      rw (next_index_lem idx below.0) k.built,
      IsOrderedFrom-lower 0 idx rs (omega arith) k.ordered,
      λ n. one_index n idx rest (Covers n rs) (k.covers n),
    )

-- The two tests accept exactly the lists of non-empty ranges in order.
ordered_accepted :
    (k : ℕ) (rs : List Range)
    → IsOrderedFrom k rs
    → (any_empty rs ≡ false) × (any_overlap rs ≡ false)
unfolding any_empty any_overlap
ordered_accepted k [] o = (refl, refl)
ordered_accepted k (r ∷ []) o = (ground (arith, o.1), refl)
ordered_accepted k (r ∷ s ∷ rs) o =
    let ih = ordered_accepted r.end (s ∷ rs) o.2 in
    (ground (arith, o.1, ih.0), ground (arith, o.2, ih.1))

accepted_ordered :
    (k : ℕ) (r : Range) (rs : List Range)
    → k ≤ r.start
    → any_empty (r ∷ rs) ≡ false
    → any_overlap (r ∷ rs) ≡ false
    → IsOrderedFrom k (r ∷ rs)
unfolding any_empty any_overlap
accepted_ordered k r [] le e o = (le, ground arith, tt)
accepted_ordered k r (s ∷ rs) le e o =
    (le, ground arith, accepted_ordered r.end s rs (ground arith) (ground arith) (ground arith))

-- `try_from` accepts a list, unchanged, exactly when its ranges are non-empty and in order.
pub try_from-IsRangeList : (rs : List Range) → (try_from rs ≡ ok rs) ↔ IsRangeList rs
unfolding try_from
try_from-IsRangeList rs = (accepts rs, λ o. ground (arith, ordered_accepted 0 rs o))
  where
    accepts : (rs : List Range) → try_from rs ≡ ok rs → IsRangeList rs
    accepts [] h = tt
    accepts (r ∷ rs) h = accepted_ordered 0 r rs (omega arith) (ground arith) (ground arith)

-- The union of a range with a later one, with a gap between them, is one range that fills the gap.
union_fills_gap :
    (a b : Range)
    → a.start < a.end
    → a.end < b.start
    → b.start < b.end
    → union (a ∷ []) (b ∷ []) ≡ some (record { start = a.start; end = b.end } ∷ [])
unfolding union union_pieces seal seal_from
union_fills_gap a b na gap nb =
    let low : min a.start b.start ≡ a.start = omega arith in
    let high : min a.end b.end ≡ a.end = omega arith in
    let first : ltb a.end b.end ≡ true = ground arith in rw (first, low, high) (ground arith)
