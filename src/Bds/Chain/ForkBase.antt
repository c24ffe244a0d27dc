-- ===== src/Bds/Chain/ForkBase.antt =====
-- The block of a chain that a fork is based on, given the blocks that another chain reports.
use data_lib.Common.{
  ℕ, ◌+◌, ◌≤◌, ◌<◌, ◌≡◌, inl, inr, sym, ap, subst, ◌∙◌, Bool, true, false, ◌&&◌, ◌||◌, Option, none,
  some, List, [], ◌∷◌, arith, ltb, ◌==◌, str_eq, if◌then◌else◌, Bool-cases, All, refl,
}
use data_lib.Storage.Data.{BlockRef}
use data_lib.Bds.Chain.{fork_base, pop_back, hints_up_to, last_below}

-- Whether a block is one of the hints, and whether it is below them all.
abbrev is_hint : BlockRef → BlockRef → Bool
is_hint b p = (b.number == p.number) && str_eq b.hash p.hash

abbrev listed : BlockRef → List BlockRef → Bool
listed b [] = false
listed b (p ∷ prev) = is_hint b p || listed b prev

abbrev below_all : BlockRef → List BlockRef → Bool
below_all b [] = true
below_all b (p ∷ prev) = ltb b.number p.number && below_all b prev

-- The first block of the chain that is one of the hints or below them all.
abbrev pub first_agreeing : List BlockRef → List BlockRef → Option BlockRef
first_agreeing [] prev = none
first_agreeing (b ∷ chain) prev =
    let later = first_agreeing chain prev in
    if listed b prev || below_all b prev then some b else later

-- Lists that start at the back: of numbers without a gap, and of numbers that decrease.
abbrev pub IsConsecutive : List BlockRef → Type 0
IsConsecutive [] = Unit
IsConsecutive (p ∷ []) = Unit
IsConsecutive (p ∷ q ∷ prev) = (p.number ≡ q.number + 1) × IsConsecutive (q ∷ prev)

abbrev pub IsDescending : List BlockRef → Type 0
IsDescending [] = Unit
IsDescending (b ∷ chain) = All (λ c. c.number < b.number) chain × IsDescending chain

IsConsecutive-tail :
    (p : BlockRef) (prev : List BlockRef) → IsConsecutive (p ∷ prev) → IsConsecutive prev
IsConsecutive-tail p [] h = tt
IsConsecutive-tail p (q ∷ prev) h = h.1

hints_up_to-IsConsecutive :
    (n : ℕ) (prev : List BlockRef) → IsConsecutive prev → IsConsecutive (hints_up_to n prev)
hints_up_to-IsConsecutive n [] h = tt
hints_up_to-IsConsecutive n (p ∷ prev) h = elim (Bool-cases (ltb n p.number)) [
  | inl q ↦ rw (q) (hints_up_to-IsConsecutive n prev (IsConsecutive-tail p prev h))
  | inr q ↦ rw (q) h
]

-- Hints without a gap that reach a number hold that number, or are all above it.
hints_up_to_head :
    (n : ℕ) (prev : List BlockRef) (p : BlockRef) (rest : List BlockRef)
    → IsConsecutive prev
    → last_below n prev ≡ false
    → hints_up_to n prev ≡ p ∷ rest
    → p.number ≡ n
hints_up_to_head n [] p rest h b e = absurd cc
hints_up_to_head n (q ∷ []) p rest h b e = elim (Bool-cases (ltb n q.number)) [
  | inl a ↦ absurd (let t = rw (a) at e in cc)
  | inr a ↦
      let t : q ∷ [] ≡ p ∷ rest = rw (a) at e in
      let same : q ≡ p = cc in subst (λ (x : BlockRef). x.number ≡ n) same (ground arith)
]
hints_up_to_head n (q ∷ r ∷ prev) p rest h b e = elim (Bool-cases (ltb n q.number)) [
  | inl a ↦
      let t : hints_up_to n (r ∷ prev) ≡ p ∷ rest = rw (a) at e in
      hints_up_to_head n (r ∷ prev) p rest h.1 (ground (arith, a, h.0)) t
  | inr a ↦
      let t : q ∷ r ∷ prev ≡ p ∷ rest = rw (a) at e in
      let same : q ≡ p = cc in subst (λ (x : BlockRef). x.number ≡ n) same (ground arith)
]

-- A block above all hints is none of them.
listed_above :
    (b p : BlockRef) (prev : List BlockRef)
    → IsConsecutive (p ∷ prev)
    → p.number < b.number
    → listed b (p ∷ prev) ≡ false
listed_above b p [] h lt = ground arith
listed_above b p (q ∷ prev) h lt =
    ground (arith, listed_above b q prev h.1 (omega (arith, h.0, lt)))

-- The hints above a number do not matter to the blocks up to it, but that these are below them.
hints_up_to-listed :
    (n : ℕ) (b : BlockRef) (prev : List BlockRef)
    → b.number ≤ n
    → listed b (hints_up_to n prev) ≡ listed b prev
hints_up_to-listed n b [] le = refl
hints_up_to-listed n b (p ∷ prev) le = ground (arith, hints_up_to-listed n b prev le)

hints_up_to-below_all :
    (n : ℕ) (b : BlockRef) (prev : List BlockRef)
    → b.number ≤ n
    → below_all b (hints_up_to n prev) ≡ below_all b prev
hints_up_to-below_all n b [] le = refl
hints_up_to-below_all n b (p ∷ prev) le = ground (arith, hints_up_to-below_all n b prev le)

-- Below a hint, the hints from it on are those that matter.
first_agreeing-rest :
    (chain prev : List BlockRef) (p : BlockRef) (rest : List BlockRef)
    → hints_up_to p.number prev ≡ p ∷ rest
    → All (λ c. c.number < p.number) chain
    → first_agreeing chain rest ≡ first_agreeing chain prev
first_agreeing-rest [] prev p rest e lt = refl
first_agreeing-rest (b ∷ chain) prev p rest e lt =
    let in_rest : is_hint b p || listed b rest ≡ listed b prev =
      sym (ap (listed b) e) ∙ hints_up_to-listed p.number b prev (omega (arith, lt.0)) in
    let under_rest : ltb b.number p.number && below_all b rest ≡ below_all b prev =
      sym (ap (below_all b) e) ∙ hints_up_to-below_all p.number b prev (omega (arith, lt.0)) in
    ground (arith, in_rest, under_rest, lt.0, first_agreeing-rest chain prev p rest e lt.1)

-- A block above the last hint is passed over.
skips :
    (b : BlockRef) (chain prev : List BlockRef)
    → IsConsecutive prev
    → last_below b.number prev ≡ true
    → first_agreeing (b ∷ chain) prev ≡ first_agreeing chain prev
skips b chain [] h low = absurd cc
skips b chain (p ∷ prev) h low = ground (arith, listed_above b p prev h (ground (arith, low)))

-- A block at the last of the hints that are left, but not that hint.
passes :
    (b : BlockRef) (chain prev : List BlockRef) (p : BlockRef) (rest : List BlockRef)
    → hints_up_to b.number prev ≡ p ∷ rest
    → IsConsecutive (p ∷ rest)
    → p.number ≡ b.number
    → is_hint b p ≡ false
    → first_agreeing (b ∷ chain) prev ≡ first_agreeing chain prev
passes b chain prev p rest e h same other =
    let in_rest : is_hint b p || listed b rest ≡ listed b prev =
      sym (ap (listed b) e) ∙ hints_up_to-listed b.number b prev (omega arith) in
    let under_rest : ltb b.number p.number && below_all b rest ≡ below_all b prev =
      sym (ap (below_all b) e) ∙ hints_up_to-below_all b.number b prev (omega arith) in
    ground (arith, in_rest, under_rest, lower rest h, other, same)
  where
    lower : (rest : List BlockRef) → IsConsecutive (p ∷ rest) → listed b rest ≡ false
    lower [] h = refl
    lower (q ∷ rest) h = listed_above b q rest h.1 (omega (arith, h.0, same))

-- What the hints that are left decide at a block that they reach.
reaches :
    (b : BlockRef) (chain prev left : List BlockRef)
    → hints_up_to b.number prev ≡ left
    → last_below b.number prev ≡ false
    → IsConsecutive prev
    → IsConsecutive left
    → All (λ c. c.number < b.number) chain
    → ((ps : List BlockRef) → IsConsecutive ps → fork_base chain ps ≡ first_agreeing chain ps)
    → fork_base (b ∷ chain) prev ≡ first_agreeing (b ∷ chain) prev
unfolding fork_base
reaches b chain prev [] e r h hl lt ih =
    let under : true ≡ below_all b prev =
      sym (ap (below_all b) e) ∙ hints_up_to-below_all b.number b prev (omega arith) in
    rw (r, e, sym under) (ground arith)
reaches b chain prev (p ∷ rest) e r h hl lt ih =
    let same = hints_up_to_head b.number prev p rest h r e in
    elim (Bool-cases (is_hint b p)) [
      | inl is ↦
          let in_rest : is_hint b p || listed b rest ≡ listed b prev =
            sym (ap (listed b) e) ∙ hints_up_to-listed b.number b prev (omega arith) in
          rw (r, e, is) (ground (arith, in_rest, is))
      | inr other ↦
          let e' : hints_up_to p.number prev ≡ p ∷ rest = ap (λ n. hints_up_to n prev) same ∙ e in
          let below = subst (λ n. All (λ (c : BlockRef). c.number < n) chain) (sym same) lt in
          rw (r, e, other)
            (ap (λ ps. fork_base chain (pop_back ps)) e
              ∙ ih rest (IsConsecutive-tail p rest hl)
              ∙ first_agreeing-rest chain prev p rest e' below
              ∙ sym (passes b chain prev p rest e hl same other))
    ]

-- Over blocks of decreasing numbers and hints of consecutive numbers, both from the back,
-- `compute_fork_base` finds the first block that is one of the hints, by number and hash, or below them
-- all, and nothing if there is none.
pub fork_base-first_agreeing :
    (chain prev : List BlockRef)
    → IsDescending chain
    → IsConsecutive prev
    → fork_base chain prev ≡ first_agreeing chain prev
unfolding fork_base
fork_base-first_agreeing [] prev d h = refl
fork_base-first_agreeing (b ∷ chain) prev d h = elim (Bool-cases (last_below b.number prev)) [
  | inl low ↦ rw (low) (fork_base-first_agreeing chain prev d.1 h ∙ sym (skips b chain prev h low))
  | inr reached ↦
      reaches b chain prev (hints_up_to b.number prev) refl reached h
        (hints_up_to-IsConsecutive b.number prev h) d.0
        (λ ps k. fork_base-first_agreeing chain ps d.1 k)
]

-- Where the last hint but one lies below a block of the chain and the last one above it, the block
-- below is the base, whatever its hash and that of the lower hint.
fork_base_drops_hint :
    (b c : BlockRef) (chain : List BlockRef) (low high : BlockRef)
    → low.number < b.number
    → b.number < high.number
    → fork_base (b ∷ c ∷ chain) (high ∷ low ∷ []) ≡ some c
unfolding fork_base
fork_base_drops_hint b c chain low high lt gt = ground arith
