-- ===== src/Ranges/Cover.antt =====
-- The indexes that a list of ranges covers.
use data_lib.Common.{
  ℕ, ◌≤◌, ◌<◌, ◌≡◌, ◌↔◌, ◌⊎◌, inl, inr, subst, List, [], ◌∷◌, arith, ltb, ◌==◌, Bool-cases, max,
}
use data_lib.Ranges.{Range, intersection, keep}

abbrev pub Within : ℕ → Range → Type 0
Within n r = (r.start ≤ n) × (n < r.end)

abbrev pub Covers : ℕ → List Range → Type 0
Covers n [] = ⊥
Covers n (r ∷ rs) = Within n r ⊎ Covers n rs

-- Non-empty ranges in order, none of which starts before the one ahead of it ends.
abbrev pub IsOrderedFrom : ℕ → List Range → Type 0
IsOrderedFrom k [] = Unit
IsOrderedFrom k (r ∷ rs) = (k ≤ r.start) × (r.start < r.end) × IsOrderedFrom r.end rs

abbrev pub IsRangeList : List Range → Type 0
IsRangeList = IsOrderedFrom 0

pub IsOrderedFrom-Covers : (k n : ℕ) (rs : List Range) → IsOrderedFrom k rs → Covers n rs → k ≤ n
IsOrderedFrom-Covers k n [] o c = absurd c
IsOrderedFrom-Covers k n (r ∷ rs) o (inl w) = omega (arith, o.0, w.0)
IsOrderedFrom-Covers k n (r ∷ rs) o (inr c) =
    omega (arith, o.0, o.1, IsOrderedFrom-Covers r.end n rs o.2 c)

pub keep-Covers :
    (n : ℕ) (r : Range) (rs : List Range) → Covers n (keep r rs) ↔ (Within n r ⊎ Covers n rs)
keep-Covers n r rs = elim (Bool-cases (ltb r.start r.end)) [
  | inl b ↦ rw b ((λ c. c), λ c. c)
  | inr b ↦ rw b (inr, λ c. elim c [ inl w ↦ absurd (ground (arith, w)) | inr d ↦ d ])
]

-- One pass: the piece of the two heads, then the ranges left, where the pass took the head that ends
-- first off its list.
meet_left :
    (n : ℕ) (a b : Range) (xs ys : List Range) (rest : List Range)
    → IsOrderedFrom a.end xs
    → IsOrderedFrom b.end ys
    → a.end ≤ b.end
    → (Covers n rest ↔ (Covers n xs × Covers n (b ∷ ys)))
    → Covers n (keep (record { start = max a.start b.start; end = a.end }) rest)
      ↔ (Covers n (a ∷ xs) × Covers n (b ∷ ys))
meet_left n a b xs ys rest oa ob le ih = (
  λ c. elim ((keep-Covers n _ rest).0 c) [
    | inl w ↦ ground (arith, w)
    | inr d ↦ (inr (ih.0 d).0, (ih.0 d).1)
  ],
  λ (c, d). (keep-Covers n _ rest).1 (joined c d),
)
  where
    joined :
        Covers n (a ∷ xs)
        → Covers n (b ∷ ys)
        → Within n (record { start = max a.start b.start; end = a.end }) ⊎ Covers n rest
    joined (inl w) (inl v) = ground arith
    joined (inl w) (inr d) = absurd (omega (arith, w.1, le, IsOrderedFrom-Covers b.end n ys ob d))
    joined (inr c) d = inr (ih.1 (c, d))

meet_right :
    (n : ℕ) (a b : Range) (xs ys : List Range) (rest : List Range)
    → IsOrderedFrom a.end xs
    → IsOrderedFrom b.end ys
    → b.end ≤ a.end
    → (Covers n rest ↔ (Covers n (a ∷ xs) × Covers n ys))
    → Covers n (keep (record { start = max a.start b.start; end = b.end }) rest)
      ↔ (Covers n (a ∷ xs) × Covers n (b ∷ ys))
meet_right n a b xs ys rest oa ob le ih =
    let m =
      meet_left n b a ys xs rest ob oa le (λ c. ((ih.0 c).1, (ih.0 c).0), λ (c, d). ih.1 (d, c)) in
    let e : max b.start a.start ≡ max a.start b.start = omega arith in
    subst
      (λ s.
        Covers n (keep (record { start = s; end = b.end }) rest)
        ↔ (Covers n (a ∷ xs) × Covers n (b ∷ ys)))
      e (λ c. ((m.0 c).1, (m.0 c).0), λ (c, d). m.1 (d, c))

meet_both :
    (n : ℕ) (a b : Range) (xs ys : List Range) (rest : List Range)
    → IsOrderedFrom a.end xs
    → IsOrderedFrom b.end ys
    → a.end ≡ b.end
    → (Covers n rest ↔ (Covers n xs × Covers n ys))
    → Covers n (keep (record { start = max a.start b.start; end = a.end }) rest)
      ↔ (Covers n (a ∷ xs) × Covers n (b ∷ ys))
meet_both n a b xs ys rest oa ob e ih =
    meet_left n a b xs ys rest oa ob (omega (arith, e))
      (λ c. ((ih.0 c).0, inr (ih.0 c).1), λ (c, d). ih.1 (c, behind c d))
  where
    behind : Covers n xs → Covers n (b ∷ ys) → Covers n ys
    behind c (inl w) = absurd (omega (arith, w.1, e, IsOrderedFrom-Covers a.end n xs oa c))
    behind c (inr d) = d

-- The intersection of two range lists covers the indexes that both cover, and no others.
pub intersection-Covers :
    (n : ℕ) (ka kb : ℕ) (xs ys : List Range)
    → IsOrderedFrom ka xs
    → IsOrderedFrom kb ys
    → Covers n (intersection xs ys) ↔ (Covers n xs × Covers n ys)
unfolding intersection
intersection-Covers n ka kb [] ys oa ob = (λ c. absurd c, λ c. absurd c.0)
intersection-Covers n ka kb (a ∷ xs) [] oa ob = (λ c. absurd c, λ c. absurd c.1)
intersection-Covers n ka kb (a ∷ xs) (b ∷ ys) oa ob = elim (Bool-cases (ltb a.end b.end)) [
  | inl lt ↦ rw lt (
      meet_left n a b xs ys (intersection xs (b ∷ ys)) oa.2 ob.2 (ground arith)
        (intersection-Covers n a.end kb xs (b ∷ ys) oa.2 ob))
  | inr ge ↦ rw ge (elim (Bool-cases (a.end == b.end)) [
    | inl e ↦ rw e (
        meet_both n a b xs ys (intersection xs ys) oa.2 ob.2 (ground arith)
          (intersection-Covers n a.end b.end xs ys oa.2 ob.2))
    | inr d ↦ rw d (
        meet_right n a b xs ys (intersection (a ∷ xs) ys) oa.2 ob.2 (ground arith)
          (intersection-Covers n ka b.end (a ∷ xs) ys oa ob.2))
  ])
]
