-- ===== src/Bds/Chain/Bisect.antt =====
-- `bisect` of crates/bds/src/util.rs, over the block number at each index of a chain. Fuel bounds its
-- loop; without fuel there is no answer.
use data_lib.Common.{
  leb→le, ltb→lt, ==_iff, ℕ, zero, suc, ◌+◌, ◌-◌, ◌/◌, ◌≤◌, ◌<◌, ◌≡◌, inl, inr, refl, sym, subst,
  Bool, true, false, Option, none, some, arith, ltb, leb, ◌==◌, if◌then◌else◌, Bool-cases,
}

-- `while end - beg > 1`
unfoldable pub narrow : ℕ → (ℕ → ℕ) → ℕ → ℕ → ℕ → Option ℕ
narrow zero number n beg end = none
narrow (suc fuel) number n beg end =
    let mid = beg + (end - beg) / 2 in
    let above = narrow fuel number n mid end in
    let below = narrow fuel number n beg mid in
    if ltb 1 (end - beg)
    then (if ltb (number mid) n then above else if number mid == n then some mid else below)
    else some end

abbrev pub bisect_below : (ℕ → ℕ) → ℕ → ℕ → Option ℕ
bisect_below number n end =
    let beg = end - (number end - n) in
    if leb n (number beg) then some beg else narrow (end - beg) number n beg end

unfoldable pub bisect : ℕ → (ℕ → ℕ) → ℕ → Option ℕ
bisect zero number n = some 0
bisect (suc end) number n =
    if ltb (number end) n
    then some (end + 1)
    else if number end == n
    then some end
    else bisect_below number n end

-- The first index of a block at or above the number, or the length.
abbrev pub IsLowerBound : ℕ → (ℕ → ℕ) → ℕ → ℕ → Type 0
IsLowerBound len number n r =
    (r ≤ len) × ((i : ℕ) → i < r → number i < n) × ((i : ℕ) → r ≤ i → i < len → n ≤ number i)

module _ (len : ℕ) (number : ℕ → ℕ) (increasing : (i j : ℕ) → i < j → j < len → number i < number j)
    (n : ℕ) where
  from_on : (k : ℕ) → n ≤ number k → (i : ℕ) → k ≤ i → i < len → n ≤ number i
  from_on k above i h inside = elim (Bool-cases (i == k)) [
    | inl e ↦ subst (λ j. n ≤ number j) (sym ((==_iff i k).0 e)) above
    | inr e ↦ omega (arith, increasing k i (ground (arith, h, e)) inside, above)
  ]

  up_to : (k : ℕ) → k < len → number k < n → (i : ℕ) → i < suc k → number i < n
  up_to k inside below i h = elim (Bool-cases (i == k)) [
    | inl e ↦ subst (λ j. number j < n) (sym ((==_iff i k).0 e)) below
    | inr e ↦ omega (arith, increasing i k (ground (arith, h, e)) inside, below)
  ]

  -- An index whose block is below, and the next one, whose block is not.
  bound_at :
      (beg : ℕ)
      → suc beg < len
      → number beg < n
      → n ≤ number (suc beg)
      → IsLowerBound len number n (suc beg)
  bound_at beg inside below above =
      (omega (arith, inside), up_to beg (omega (arith, inside)) below, from_on (suc beg) above)

  found_at : (mid : ℕ) → mid < len → number mid ≡ n → IsLowerBound len number n mid
  found_at mid inside e = (
    omega (arith, inside),
    λ i h. omega (arith, increasing i mid h inside, e),
    from_on mid (omega (arith, e)),
  )

  abbrev Found : Option ℕ → Type 0
  Found o = (r : ℕ) × (o ≡ some r) × IsLowerBound len number n r

  narrow-Found :
      (fuel beg end : ℕ)
      → beg < end
      → end < len
      → end - beg ≤ fuel
      → number beg < n
      → n ≤ number end
      → Found (narrow fuel number n beg end)
  unfolding narrow
  narrow-Found zero beg end order inside enough below above = ground arith
  narrow-Found (suc fuel) beg end order inside enough below above =
      at _ refl _ refl _ refl (narrow-Found fuel mid end) (narrow-Found fuel beg mid)
    where
      mid : ℕ
      mid = beg + (end - beg) / 2

      adjacent : ltb 1 (end - beg) ≡ false → end ≡ suc beg
      adjacent e = ground (arith, order)

      at :
          (wide : Bool)
          → ltb 1 (end - beg) ≡ wide
          → (low : Bool) → ltb (number mid) n ≡ low
          → (equal : Bool) → (number mid == n) ≡ equal
          → (mid < end
              → end < len
              → end - mid ≤ fuel
              → number mid < n
              → n ≤ number end
              → Found (narrow fuel number n mid end))
          → (beg < mid
              → mid < len
              → mid - beg ≤ fuel
              → number beg < n
              → n ≤ number mid
              → Found (narrow fuel number n beg mid))
          → Found (narrow (suc fuel) number n beg end)
      at false w low l equal q up down =
          rw (narrow, w)
            (
              end,
              refl,
              subst (IsLowerBound len number n) (sym (adjacent w)) (
                  bound_at beg (subst (λ k. k < len) (adjacent w) inside) below
                    (subst (λ k. n ≤ number k) (adjacent w) above)),
            )
      at true w true l equal q up down =
          rw (narrow, w, l)
            (up (ground (arith, w)) inside (ground (arith, w, enough)) (ltb→lt _ n l) above)
      at true w false l true q up down =
          rw (narrow, w, l, q)
            (mid, refl, found_at mid (ground (arith, w, inside)) ((==_iff _ n).0 q))
      at true w false l false q up down =
          rw (narrow, w, l, q)
            (down (ground (arith, w)) (ground (arith, w, inside)) (ground (arith, w, enough)) below
              (ground (arith, l)))

  -- The numbers grow by one at least from one index to the next.
  gap : (i k : ℕ) → i + k < len → number i + k ≤ number (i + k)
  gap i zero h = rw (plus_zero i) (omega arith)
    where
      plus_zero : (j : ℕ) → j + 0 ≡ j
      plus_zero j = omega arith
  gap i (suc k) h =
      omega (arith, gap i k (omega (arith, h)), increasing (i + k) (i + suc k) (omega arith) h)

  bisect_below-Found :
      (end : ℕ) → end < len → suc end ≡ len → n < number end → Found (bisect_below number n end)
  bisect_below-Found end inside last above = elim (Bool-cases (leb n (number beg))) [
    | inl e ↦ rw e (beg, refl, (omega (arith, inside), before, from_on beg (leb→le n _ e)))
    | inr e ↦ rw e (
        narrow-Found (end - beg) beg end (before_end e) inside (omega arith) (ground (arith, e))
          (omega (arith, above)))
  ]
    where
      beg : ℕ
      beg = end - (number end - n)

      before : (i : ℕ) → i < beg → number i < n
      before i h = omega (
        arith,
        h,
        above,
        subst (λ k. number i + (end - i) ≤ number k) whole (gap i (end - i) (omega arith)),
      )
        where
          whole : i + (end - i) ≡ end
          whole = omega (arith, h)

      before_end : leb n (number beg) ≡ false → beg < end
      before_end e = elim (Bool-cases (beg == end)) [
        | inl q ↦
            ground (arith, subst (λ k. leb n (number k) ≡ false) ((==_iff beg end).0 q) e, above)
        | inr q ↦ ground (arith, q)
      ]

-- On blocks whose numbers increase, bisect ends with the first index at or above the number, or the length:
-- what a scan from the front finds.
pub bisect-IsLowerBound :
    (len : ℕ) (number : ℕ → ℕ) (n : ℕ)
    → ((i j : ℕ) → i < j → j < len → number i < number j)
    → (r : ℕ) × (bisect len number n ≡ some r) × IsLowerBound len number n r
unfolding bisect
bisect-IsLowerBound zero number n increasing =
    (0, refl, (omega arith, λ i h. ground arith, λ i h k. ground arith))
bisect-IsLowerBound (suc end) number n increasing = at _ refl _ refl
  where
    at :
        (low : Bool)
        → ltb (number end) n ≡ low
        → (equal : Bool) → (number end == n) ≡ equal
        → (r : ℕ) × (bisect (suc end) number n ≡ some r) × IsLowerBound (suc end) number n r
    at true l equal q =
        rw (bisect, l)
          (
            end + 1,
            refl,
            (
              omega arith,
              λ i h.
                  up_to (suc end) number increasing n end (omega arith) (ltb→lt _ n l) i
                    (omega (arith, h)),
              λ i h k. ground arith,
            ),
          )
    at false l true q =
        rw (bisect, l, q)
          (end, refl, found_at (suc end) number increasing n end (omega arith) ((==_iff _ n).0 q))
    at false l false q =
        rw (bisect, l, q)
          (bisect_below-Found (suc end) number increasing n end (omega arith) refl (ground arith))
