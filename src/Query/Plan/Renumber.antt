-- ===== src/Query/Plan/Renumber.antt =====
-- The second pass of `simplify` of plan/plan.rs: relations are removed, and the indexes of the
-- relations that stay are moved.
use data_lib.Query.Rows.{any, contains, remove_elements}
use data_lib.Query.Table.{Table, get_index}
use data_lib.Query.Rel.{Rel, output_table}
use data_lib.Query.Plan.Simplify.{index_map, remove_mask, renumber, drop_marked}
use data_lib.Query.Plan.Marks.{marked, get_elem?-absent, get_elem?-marked}
use data_lib.Common.{
  ℕ, zero, suc, ◌+◌, ◌<◌, ◌≤◌, ◌≡◌, refl, sym, ap, ◌∙◌, subst, Bool, true, false, not, ◌&&◌, Option,
  none, some, List, [], ◌∷◌, arith, ◌==◌, length, get_elem?, All, Bool-cases, inl, inr,
}

-- The mask removes the relations whose output is marked.
abbrev pub IsMaskOf : List Table → List Bool → List Bool → List Rel → Type 0
IsMaskOf tables full mask relations =
    (i : ℕ) (rel : Rel) (j : ℕ)
    → get_elem? relations i ≡ some rel
    → get_index tables (output_table rel) ≡ some j
    → marked mask i ≡ marked full j

module _ (tables : List Table) (full : List Bool) where
  abbrev pub HasOutput : Rel → Type 0
  HasOutput rel = (j : ℕ) × (get_index tables (output_table rel) ≡ some j) × (j < length full)

  pub remove_mask-IsMaskOf :
      (relations : List Rel)
      → All HasOutput relations
      → (mask : List Bool) × (remove_mask tables full relations ≡ some mask)
        × (length mask ≡ length relations)
        × (IsMaskOf tables full mask relations)
  unfolding remove_mask marked
  remove_mask-IsMaskOf [] h = ([], refl, refl, λ i rel j e f. absurd cc)
  remove_mask-IsMaskOf (rel ∷ rest) h =
      let ih = remove_mask-IsMaskOf rest h.1 in
      let found = get_elem?-marked full h.0.0 h.0.2 in
      (marked full h.0.0 ∷ ih.0, rw (h.0.1, found, ih.1) refl, ap suc ih.2, at ih.0 ih.3)
    where
      at :
          (mask : List Bool)
          → IsMaskOf tables full mask rest
          → IsMaskOf tables full (marked full h.0.0 ∷ mask) (rel ∷ rest)
      at mask m zero other j e f = let same : h.0.0 ≡ j = cc in ap (marked full) same
      at mask m (suc i) other j e f = m i other j e f

abbrev pub Moves : ℕ → List Bool → ℕ → ℕ → Type 0
Moves n mask i k = get_elem? (index_map n mask) i ≡ some (some k)

pub length-index_map : (n : ℕ) (mask : List Bool) → length (index_map n mask) ≡ length mask
unfolding index_map
length-index_map n [] = refl
length-index_map n (true ∷ mask) = ap suc (length-index_map n mask)
length-index_map n (false ∷ mask) = ap suc (length-index_map (suc n) mask)

Moves-le : (n : ℕ) (mask : List Bool) (i k : ℕ) → Moves n mask i k → n ≤ k
unfolding index_map
Moves-le n [] i k h = absurd cc
Moves-le n (true ∷ mask) zero k h = absurd cc
Moves-le n (true ∷ mask) (suc i) k h = Moves-le n mask i k h
Moves-le n (false ∷ mask) zero k h = let e : n ≡ k = cc in omega arith
Moves-le n (false ∷ mask) (suc i) k h = omega (arith, Moves-le (suc n) mask i k h)

Moves-inj : (n : ℕ) (mask : List Bool) (i i' k : ℕ) → Moves n mask i k → Moves n mask i' k → i ≡ i'
unfolding index_map
Moves-inj n [] i i' k h h' = absurd cc
Moves-inj n (true ∷ mask) zero i' k h h' = absurd cc
Moves-inj n (true ∷ mask) (suc i) zero k h h' = absurd cc
Moves-inj n (true ∷ mask) (suc i) (suc i') k h h' = ap suc (Moves-inj n mask i i' k h h')
Moves-inj n (false ∷ mask) zero zero k h h' = refl
Moves-inj n (false ∷ mask) zero (suc i') k h h' =
    let e : n ≡ k = cc in absurd (omega (arith, Moves-le (suc n) mask i' k h'))
Moves-inj n (false ∷ mask) (suc i) zero k h h' =
    let e : n ≡ k = cc in absurd (omega (arith, Moves-le (suc n) mask i k h))
Moves-inj n (false ∷ mask) (suc i) (suc i') k h h' = ap suc (Moves-inj (suc n) mask i i' k h h')

-- What `index_map` says of a list without the elements that the mask removes.
abbrev pub Relocates {ℓ} : {A : Type ℓ} → ℕ → List Bool → List A → List A → Type ℓ
Relocates n mask xs ys =
    (i k : ℕ) → Moves n mask i k → (d : ℕ) × (k ≡ n + d) × (get_elem? ys d ≡ get_elem? xs i)

pub remove_elements-Relocates {ℓ} :
    {A : Type ℓ} (n : ℕ) (xs : List A) (mask : List Bool)
    → length mask ≡ length xs
    → (ys : List A) × (remove_elements xs mask ≡ some ys) × (Relocates n mask xs ys)
unfolding remove_elements index_map
remove_elements-Relocates n [] [] h = ([], refl, λ i k e. absurd cc)
remove_elements-Relocates n [] (b ∷ mask) h = absurd (omega (arith, h))
remove_elements-Relocates n (x ∷ xs) [] h = absurd (omega (arith, h))
remove_elements-Relocates n (x ∷ xs) (true ∷ mask) h =
    let ih = remove_elements-Relocates n xs mask (omega (arith, h)) in
    (ih.0, rw (ih.1) refl, at ih.0 ih.2)
  where
    at : (ys : _) → Relocates n mask xs ys → Relocates n (true ∷ mask) (x ∷ xs) ys
    at ys r zero k e = absurd cc
    at ys r (suc i) k e = r i k e
remove_elements-Relocates {A = A} n (x ∷ xs) (false ∷ mask) h =
    let ih = remove_elements-Relocates (suc n) xs mask (omega (arith, h)) in
    (x ∷ ih.0, rw (ih.1) refl, at ih.0 ih.2)
  where
    at : (ys : List A) → Relocates (suc n) mask xs ys → Relocates n (false ∷ mask) (x ∷ xs) (x ∷ ys)
    at ys r zero k e = let same : n ≡ k = cc in (0, omega arith, refl)
    at ys r (suc i) k e = let t = r i k e in (suc t.0, omega (arith, t.1), t.2)

pub Moves-get_elem? {ℓ} :
    {A : Type ℓ} (mask : List Bool) (xs ys : List A) (i k : ℕ)
    → Relocates 0 mask xs ys
    → Moves 0 mask i k
    → get_elem? ys k ≡ get_elem? xs i
Moves-get_elem? mask xs ys i k r e =
    let t = r i k e in
    let same : t.0 ≡ k = omega (arith, t.1) in subst (λ d. get_elem? ys d ≡ get_elem? xs i) same t.2

pub marked-get_elem? :
    (xs ys : List Bool) (i k : ℕ) → get_elem? ys k ≡ get_elem? xs i → marked ys k ≡ marked xs i
unfolding marked
marked-get_elem? [] [] i k h = refl
marked-get_elem? [] (y ∷ ys) i zero h = absurd cc
marked-get_elem? [] (y ∷ ys) i (suc k) h = marked-get_elem? [] ys i k h
marked-get_elem? (x ∷ xs) [] zero k h = absurd cc
marked-get_elem? (x ∷ xs) [] (suc i) k h = marked-get_elem? xs [] i k h
marked-get_elem? (x ∷ xs) (y ∷ ys) zero zero h = cc
marked-get_elem? (x ∷ xs) (y ∷ ys) zero (suc k) h = marked-get_elem? (x ∷ xs) ys zero k h
marked-get_elem? (x ∷ xs) (y ∷ ys) (suc i) zero h = marked-get_elem? xs (y ∷ ys) i zero h
marked-get_elem? (x ∷ xs) (y ∷ ys) (suc i) (suc k) h = marked-get_elem? (x ∷ xs) ys (suc i) k h

-- Which relation indexes a scan holds after `renumber`.
pub renumber-Moves {ℓ} :
    (P : ℕ → Type ℓ) (mask : List Bool) (is : List ℕ)
    → All (λ i. (P i) × (i < length mask)) is
    → (moved : List ℕ) × (renumber (index_map 0 mask) is ≡ some moved)
      × ((i k : ℕ) → Moves 0 mask i k → contains k moved ≡ contains i is)
      × (All (λ k. (i : ℕ) × (P i) × (Moves 0 mask i k)) moved)
unfolding renumber contains any
renumber-Moves P mask [] h = ([], refl, (λ i k e. refl), tt)
renumber-Moves P mask (i ∷ is) h =
    let ih = renumber-Moves P mask is h.1 in step ih.0 ih.1 ih.2 ih.3 _ refl
  where
    step :
        (later : List ℕ)
        → renumber (index_map 0 mask) is ≡ some later
        → ((i k : ℕ) → Moves 0 mask i k → contains k later ≡ contains i is)
        → All (λ k. (i : ℕ) × (P i) × (Moves 0 mask i k)) later
        → (o : Option (Option ℕ)) → get_elem? (index_map 0 mask) i ≡ o
        → (moved : List ℕ) × (renumber (index_map 0 mask) (i ∷ is) ≡ some moved)
          × ((i' k : ℕ) → Moves 0 mask i' k → contains k moved ≡ contains i' (i ∷ is))
          × (All (λ k. (i : ℕ) × (P i) × (Moves 0 mask i k)) moved)
    step later e c a none f = absurd (
        get_elem?-absent (index_map 0 mask) i
          (subst (λ l. i < l) (sym (length-index_map 0 mask)) h.0.1) f)
    step later e c a (some none) f =
        (later, rw (f, e) refl, (λ i' k m. ground (arith, c i' k m, away i' k m _ refl)), a)
      where
        away : (i' k : ℕ) → Moves 0 mask i' k → (b : Bool) → (i == i') ≡ b → (i == i') ≡ false
        away i' k m true q =
            let same : i ≡ i' = ground arith in
            absurd (let g = subst (λ t. get_elem? (index_map 0 mask) t ≡ some none) same f in cc)
        away i' k m false q = q
    step later e c a (some (some k')) f = (
      k' ∷ later,
      rw (f, e) refl,
      (λ i' k m. ground (arith, c i' k m, agree i' k m)),
      ((i, h.0.0, f), a),
    )
      where
        agree : (i' k : ℕ) → Moves 0 mask i' k → (k' == k) ≡ (i == i')
        agree i' k m = at _ refl _ refl
          where
            at : (b : Bool) → (k' == k) ≡ b → (c : Bool) → (i == i') ≡ c → (k' == k) ≡ (i == i')
            at true p true q = p ∙ sym q
            at false p false q = p ∙ sym q
            at true p false q =
                let same : k' ≡ k = ground arith in
                let t = Moves-inj 0 mask i i' k (subst (λ t. Moves 0 mask i t) same f) m in
                ground arith
            at false p true q =
                let same : i ≡ i' = ground arith in
                let g = subst (λ t. Moves 0 mask t k') same f in let t : k' ≡ k = cc in ground arith

pub drop_marked-contains {ℓ} :
    (P : ℕ → Type ℓ) (full_rel : List Bool) (is : List ℕ)
    → All (λ k. (P k) × (k < length full_rel)) is
    → (kept : List ℕ) × (drop_marked full_rel is ≡ some kept)
      × ((k : ℕ) → contains k kept ≡ contains k is && not (marked full_rel k))
      × (All P kept)
unfolding drop_marked contains any
drop_marked-contains P full_rel [] h = ([], refl, (λ k. refl), tt)
drop_marked-contains P full_rel (i ∷ is) h =
    let ih = drop_marked-contains P full_rel is h.1 in step ih.0 ih.1 ih.2 ih.3 _ refl
  where
    step :
        (later : List ℕ)
        → drop_marked full_rel is ≡ some later
        → ((k : ℕ) → contains k later ≡ contains k is && not (marked full_rel k))
        → All P later
        → (b : Bool) → marked full_rel i ≡ b
        → (kept : List ℕ) × (drop_marked full_rel (i ∷ is) ≡ some kept)
          × ((k : ℕ) → contains k kept ≡ contains k (i ∷ is) && not (marked full_rel k))
          × (All P kept)
    step later e c a true f = (
      later,
      rw (get_elem?-marked full_rel i h.0.1, e, f) refl,
      (λ k. ground (arith, c k, same k)),
      a,
    )
      where
        same : (k : ℕ) → ((i == k) && not (marked full_rel k)) ≡ false
        same k = elim (Bool-cases (i == k)) [
          | inl q ↦
              let t : i ≡ k = ground arith in
              let g = subst (λ k. marked full_rel k ≡ true) t f in ground arith
          | inr q ↦ ground arith
        ]
    step later e c a false f = (
      i ∷ later,
      rw (get_elem?-marked full_rel i h.0.1, e, f) refl,
      (λ k. ground (arith, c k, same k)),
      (h.0.0, a),
    )
      where
        same : (k : ℕ) → ((i == k) && not (marked full_rel k)) ≡ (i == k)
        same k = elim (Bool-cases (i == k)) [
          | inl q ↦
              let t : i ≡ k = ground arith in
              let g = subst (λ k. marked full_rel k ≡ false) t f in ground arith
          | inr q ↦ ground arith
        ]
