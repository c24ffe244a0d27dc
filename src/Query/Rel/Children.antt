-- ===== src/Query/Rel/Children.antt =====
-- What `find_children` of plan/rel.rs yields.
use mathlib.Core.List.{Perm}
use mathlib.Core.List.Perm
use data_lib.Query.Rows.{any, filter, contains, filter-ext}
use data_lib.Query.Rel.{
  Entry, Group, is_parent_address, sort_by_address, in_run, children_from, find_children,
}
use data_lib.Query.Rel.Address.{
  parent_absent, own_parent_absent, parent_between, extends_trans, IsBefore,
  is_parent_address-extends,
}
use data_lib.Query.Rel.Sort.{
  IsAscending, IsDistinct, any-sort_by_address, filter-sort_by_address, sort_by_address-IsAscending,
}
use data_lib.Common.{
  ℕ, ◌≡◌, refl, sym, ap, ◌∙◌, Bool, true, false, ◌&&◌, ◌||◌, List, [], ◌∷◌, ◌++◌, map, arith, All,
  Bool-cases, inl, inr, Option, none, some,
}

module _ (parents : List ℕ) (include_parent : Bool) where
  abbrev pub is_selected : Entry → Bool
  is_selected e = contains e.row parents

  -- Some selected row of the group is a proper ancestor of `e`.
  unfoldable pub descends : Group → Entry → Bool
  unfolding any
  descends g e = any (λ p. is_selected p && is_parent_address p.address e.address) g

  unfoldable pub is_child : Group → Entry → Bool
  is_child g e = descends g e || (include_parent && is_selected e)

  -- The rows that the search is for, each by a look at the whole group.
  unfoldable pub children_of : List Group → List ℕ
  unfolding is_child filter
  children_of [] = []
  children_of (g ∷ stack) = map (λ e. e.row) (filter (is_child g) g) ++ children_of stack

  abbrev RunBefore : Option (List ℕ) → Group → Type 0
  RunBefore none g = Unit
  RunBefore (some p) g = All (λ x. IsBefore p x.address) g

  abbrev Tracks : Group → Option (List ℕ) → Group → Group → Type 0
  Tracks whole run rest = All (λ x. descends whole x ≡ in_run run x.address || descends rest x)

  in_run_between :
      (run : Option (List ℕ)) (e x : Entry) (rest : Group)
      → RunBefore run (e ∷ rest)
      → IsBefore e.address x.address
      → in_run run e.address ≡ false
      → in_run run x.address ≡ false
  unfolding in_run
  in_run_between none e x rest h k q = refl
  in_run_between (some p) e x rest h k q = elim (Bool-cases (is_parent_address p x.address)) [
    | inl t ↦ absurd (grind (arith, parent_between p e.address x.address h.0 k t))
    | inr t ↦ t
  ]

  -- The head of an ascending group has no ancestor in it.
  descends_nowhere :
      (e : Entry) (g : Group) → All (λ x. IsBefore e.address x.address) g → descends g e ≡ false
  unfolding descends any
  descends_nowhere e [] h = refl
  descends_nowhere e (x ∷ g) h =
      ground (arith, parent_absent x.address e.address h.0, descends_nowhere e g h.1)

  head-Tracks :
      (whole : Group) (run : Option (List ℕ)) (e : Entry) (rest : Group)
      → IsAscending (e ∷ rest)
      → Tracks whole run (e ∷ rest) (e ∷ rest)
      → descends whole e ≡ in_run run e.address
  unfolding descends any
  head-Tracks whole run e rest s t =
      ground (arith, t.0, own_parent_absent e.address, descends_nowhere e rest s.0)

  tail-Tracks :
      (whole : Group) (run next : Option (List ℕ)) (e : Entry) (rest xs : Group)
      → ((x : Entry)
          → IsBefore e.address x.address
          → in_run next x.address
            ≡ in_run run x.address || (is_selected e && is_parent_address e.address x.address))
      → All (λ x. IsBefore e.address x.address) xs
      → Tracks whole run (e ∷ rest) xs
      → Tracks whole next rest xs
  unfolding descends any
  tail-Tracks whole run next e rest [] f s t = tt
  tail-Tracks whole run next e rest (x ∷ xs) f s t =
      (ground (arith, f x s.0, t.0), tail-Tracks whole run next e rest xs f s.1 t.1)

  RunBefore-tail :
      (run : Option (List ℕ)) (e : Entry) (g : Group) → RunBefore run (e ∷ g) → RunBefore run g
  RunBefore-tail none e g h = tt
  RunBefore-tail (some p) e g h = h.1

  run_stays :
      (run : Option (List ℕ)) (e x : Entry) (rest : Group)
      → RunBefore run (e ∷ rest)
      → in_run run e.address ≡ true
      → IsBefore e.address x.address
      → in_run run x.address
        ≡ in_run run x.address || (is_selected e && is_parent_address e.address x.address)
  unfolding in_run
  run_stays none e x rest h q k = absurd cc
  run_stays (some p) e x rest h q k =
      rw (is_parent_address-extends p x.address, is_parent_address-extends e.address x.address)
        (ground (
          arith,
          extends_trans p e.address x.address,
          sym (is_parent_address-extends p e.address) ∙ q,
        ))

  children_from-filter :
      (whole : Group) (run : Option (List ℕ)) (rest : Group)
      → IsAscending rest
      → RunBefore run rest
      → Tracks whole run rest rest
      → children_from parents include_parent run rest
        ≡ map (λ e. e.row) (filter (is_child whole) rest)
  unfolding children_from filter is_child in_run
  children_from-filter whole run [] s b t = refl
  children_from-filter whole run (e ∷ rest) s b t =
      at _ refl _ refl
        (λ q.
          children_from-filter whole run rest s.1 (RunBefore-tail run e rest b)
            (tail-Tracks whole run run e rest rest (λ x k. run_stays run e x rest b q k) s.0 t.1))
        (λ q f. children_from-filter whole (some e.address) rest s.1 s.0 (
          tail-Tracks whole run (some e.address) e rest rest
            (λ x k. ground (arith, in_run_between run e x rest b k q)) s.0 t.1))
        (λ q f. children_from-filter whole none rest s.1 tt (
          tail-Tracks whole run none e rest rest
            (λ x k. ground (arith, in_run_between run e x rest b k q)) s.0 t.1))
    where
      kept : List ℕ
      kept = map (λ x. x.row) (filter (is_child whole) rest)

      at :
          (i : Bool)
          → in_run run e.address ≡ i
          → (c : Bool) → is_selected e ≡ c
          → (i ≡ true → children_from parents include_parent run rest ≡ kept)
          → (i ≡ false
              → c ≡ true
              → children_from parents include_parent (some e.address) rest ≡ kept)
          → (i ≡ false → c ≡ false → children_from parents include_parent none rest ≡ kept)
          → children_from parents include_parent run (e ∷ rest)
            ≡ map (λ x. x.row) (filter (is_child whole) (e ∷ rest))
      at true q c f k l m = ground (arith, head-Tracks whole run e rest s t, k refl)
      at false q true f k l m = ground (arith, head-Tracks whole run e rest s t, l refl refl)
      at false q false f k l m = ground (arith, head-Tracks whole run e rest s t, m refl refl)

  children_from-sort_by_address :
      (g : Group)
      → IsDistinct g
      → Perm
          (children_from parents include_parent none (sort_by_address g))
          (map (λ e. e.row) (filter (is_child g) g))
  unfolding is_child descends in_run
  children_from-sort_by_address g d =
      let sorted = sort_by_address g in
      let same = λ (e : Entry).
        ap (λ b. b || (include_parent && is_selected e))
          (any-sort_by_address (λ p. is_selected p && is_parent_address p.address e.address) g) in
      rw
        (
          children_from-filter sorted none sorted (sort_by_address-IsAscending g d) tt
              (Tracks-start sorted sorted),
          filter-ext (is_child sorted) (is_child g) same sorted,
        )
        (Perm.map (λ e. e.row) (filter-sort_by_address (is_child g) g))
    where
      Tracks-start : (whole xs : Group) → All (λ x. descends whole x ≡ descends whole x) xs
      Tracks-start whole [] = tt
      Tracks-start whole (x ∷ xs) = (refl, Tracks-start whole xs)

-- Where no two rows of a group stand at one address, `find_children` yields, up to order and each
-- as often as it occurs, exactly the rows that have a selected row of their group as a proper
-- ancestor and, with `include_parent`, the selected rows.
pub find_children-children_of :
    (parents : List ℕ) (include_parent : Bool) (stack : List Group)
    → All IsDistinct stack
    → Perm (find_children parents include_parent stack) (children_of parents include_parent stack)
unfolding find_children children_of
find_children-children_of parents include_parent [] d = Perm.rfl
find_children-children_of parents include_parent (g ∷ stack) d =
    Perm.append (children_from-sort_by_address parents include_parent g d.0)
      (find_children-children_of parents include_parent stack d.1)
