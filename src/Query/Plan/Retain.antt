-- ===== src/Query/Plan/Retain.antt =====
-- The scans that `simplify` of plan/plan.rs keeps, after `remove_relations` and `retain_mut`.
use data_lib.Query.Rows.{any, contains}
use data_lib.Query.Rel.{Rel, input_table}
use data_lib.Query.Plan.{Scan}
use data_lib.Query.Plan.Execute.{ChunkData, option_eq, scan_rows}
use data_lib.Query.Plan.Simplify.{
  is_some, index_map, renumber, drop_marked, drop_output, reads_inputs, renumber_scans,
  retain_scans, assert_scan_relation_invariant, still_feeds,
}
use data_lib.Query.Plan.Marks.{marked, get_elem?-marked, get_elem?-length}
use data_lib.Query.Plan.Renumber.{
  Moves, Relocates, Moves-get_elem?, renumber-Moves, drop_marked-contains,
}
use data_lib.Common.{
  ℕ, ◌<◌, ◌≡◌, refl, sym, ◌∙◌, subst, String, Bool, true, false, not, ◌&&◌, Option, none, some,
  List, [], ◌∷◌, arith, ltb, ◌==◌, str_eq, eq_iff, length, get_elem?, All, Bool-cases, inl, inr,
}

abbrev pub ReadsTable : List Rel → String → ℕ → Type 0
ReadsTable relations table i =
    (rel : Rel) × (get_elem? relations i ≡ some rel) × (input_table rel ≡ table)

pub reads_inputs-ReadsTable :
    (relations : List Rel) (table : String) (is : List ℕ)
    → All (ReadsTable relations table) is
    → reads_inputs relations table is ≡ true
unfolding reads_inputs
reads_inputs-ReadsTable relations table [] h = refl
reads_inputs-ReadsTable relations table (i ∷ is) h =
    rw (reads_inputs, h.0.1)
      (at ((eq_iff (input_table h.0.0) table).1 h.0.2)
        (reads_inputs-ReadsTable relations table is h.1))
  where
    at :
        str_eq (input_table h.0.0) table ≡ true
        → reads_inputs relations table is ≡ true
        → str_eq (input_table h.0.0) table && reads_inputs relations table is ≡ true
    at p q = ground arith

contains-length : (k : ℕ) (is : List ℕ) → contains k is ≡ true → ltb 0 (length is) ≡ true
unfolding contains any
contains-length k [] h = absurd cc
contains-length k (i ∷ is) h = ground arith

module _ {Pred : Type 0} (chunk : ChunkData Pred) (relations relations' : List Rel)
    (mask full full_rel : List Bool) (relocates : Relocates 0 mask relations relations')
    (same_length : length mask ≡ length relations)
    (short : (i k : ℕ) → Moves 0 mask i k → i < length mask → k < length full_rel) where
  abbrev pub selects_row : ℕ → Scan Pred → Bool
  selects_row r scan = contains r (scan_rows chunk scan)

  abbrev pub IsIndexed : Scan Pred → Type 0
  IsIndexed scan =
      ((j : ℕ) × (scan.output ≡ some j) × (j < length full))
      × (All (ReadsTable relations scan.table) scan.relations)

  indexes_below :
      (table : String) (is : List ℕ)
      → All (ReadsTable relations table) is
      → All (λ i. (ReadsTable relations table i) × (i < length mask)) is
  indexes_below table [] h = tt
  indexes_below table (i ∷ is) h = (
    (h.0, subst (λ l. i < l) (sym same_length) (get_elem?-length relations i h.0.0 h.0.1)),
    indexes_below table is h.1,
  )

  indexes_moved :
      (table : String) (is : List ℕ)
      → All (λ k. (i : ℕ) × (ReadsTable relations table i) × (Moves 0 mask i k)) is
      → All (λ k. (ReadsTable relations' table k) × (k < length full_rel)) is
  indexes_moved table [] h = tt
  indexes_moved table (k ∷ is) (found, h) = (at found.0 found.1 found.2, indexes_moved table is h)
    where
      at :
          (i : ℕ)
          → ReadsTable relations table i
          → Moves 0 mask i k
          → (ReadsTable relations' table k) × (k < length full_rel)
      at i p m = (
        (p.0, Moves-get_elem? mask relations relations' i k relocates m ∙ p.1, p.2),
        short i k m (subst (λ l. i < l) (sym same_length) (get_elem?-length relations i p.0 p.1)),
      )

  -- The feeds of a kept scan: to a relation at its new index, and to an output.
  abbrev pub FeedsRel : ℕ → ℕ → ℕ → List (Scan Pred) → List (Scan Pred) → Type 0
  FeedsRel r i k scans kept =
      any (λ s. contains k s.relations && selects_row r s) kept
      ≡ any
          (λ s.
            is_some s.predicate
            && (contains i s.relations && (not (marked full_rel k) && selects_row r s)))
          scans

  abbrev pub FeedsOutput : ℕ → ℕ → List (Scan Pred) → List (Scan Pred) → Type 0
  FeedsOutput r j scans kept =
      any (λ s. option_eq s.output j && selects_row r s) kept
      ≡ any
          (λ s.
            is_some s.predicate
            && (option_eq s.output j && (not (marked full j) && selects_row r s)))
          scans

  pub record IsRetained (scans moved kept : List (Scan Pred)) : Type 0 where
    pub moves : renumber_scans (index_map 0 mask) scans ≡ some moved
    pub retains : retain_scans (full, full_rel) moved ≡ some kept
    pub feeds_rel : (r i k : ℕ) → Moves 0 mask i k → FeedsRel r i k scans kept
    pub feeds_output : (r j : ℕ) → FeedsOutput r j scans kept
    pub reads : assert_scan_relation_invariant relations' kept ≡ true

  -- What is left of the output of one scan.
  output_left :
      (scan : Scan Pred) (j : ℕ)
      → scan.output ≡ some j
      → j < length full
      → (out : Option ℕ) × (drop_output full scan.output ≡ some out)
        × ((i : ℕ) → option_eq out i ≡ option_eq scan.output i && not (marked full i))
  unfolding drop_output option_eq
  output_left scan j e l = at (marked full j) refl
    where
      at :
          (b : Bool)
          → marked full j ≡ b
          → (out : Option ℕ) × (drop_output full scan.output ≡ some out)
            × ((i : ℕ) → option_eq out i ≡ option_eq scan.output i && not (marked full i))
      at true f = (none, rw (e, get_elem?-marked full j l, f) refl, λ i. rw (e) (same i))
        where
          same : (i : ℕ) → false ≡ (j == i) && not (marked full i)
          same i = elim (Bool-cases (j == i)) [
            | inl q ↦
                let t : j ≡ i = ground arith in
                let g = subst (λ i. marked full i ≡ true) t f in ground arith
            | inr q ↦ ground arith
          ]
      at false f = (some j, rw (e, get_elem?-marked full j l, f) refl, λ i. rw (e) (same i))
        where
          same : (i : ℕ) → (j == i) ≡ (j == i) && not (marked full i)
          same i = elim (Bool-cases (j == i)) [
            | inl q ↦
                let t : j ≡ i = ground arith in
                let g = subst (λ i. marked full i ≡ false) t f in ground arith
            | inr q ↦ ground arith
          ]

  option_eq-is_some : (o : Option ℕ) (j : ℕ) → option_eq o j ≡ true → is_some o ≡ true
  unfolding option_eq is_some
  option_eq-is_some none j h = absurd cc
  option_eq-is_some (some i) j h = refl

  pub retain_scans-IsRetained :
      (scans : List (Scan Pred))
      → All IsIndexed scans
      → (moved : List (Scan Pred)) × (kept : List (Scan Pred)) × (IsRetained scans moved kept)
  unfolding renumber_scans retain_scans assert_scan_relation_invariant any scan_rows
  retain_scans-IsRetained [] h = (
    [],
    [],
    record {
      moves = refl;
      retains = refl;
      feeds_rel = λ r i k m. refl;
      feeds_output = λ r j. refl;
      reads = refl;
    },
  )
  retain_scans-IsRetained (scan ∷ rest) h =
      let ih = retain_scans-IsRetained rest h.1 in
      let out = output_left scan h.0.0.0 h.0.0.1 h.0.0.2 in
      let moved =
        renumber-Moves (ReadsTable relations scan.table) mask scan.relations
          (indexes_below scan.table scan.relations h.0.1) in
      let left =
        drop_marked-contains (ReadsTable relations' scan.table) full_rel moved.0
          (indexes_moved scan.table moved.0 moved.3) in
      let asserted = reads_inputs-ReadsTable relations' scan.table left.0 left.3 in
      step ih.0 ih.1 ih.2 out.0 out.1 out.2 moved.0 moved.1 moved.2 left.0 left.1 left.2 asserted _
        refl
    where
      step :
          (later kept : List (Scan Pred))
          → IsRetained rest later kept
          → (out : Option ℕ) → drop_output full scan.output ≡ some out
          → ((i : ℕ) → option_eq out i ≡ option_eq scan.output i && not (marked full i))
          → (is : List ℕ) → renumber (index_map 0 mask) scan.relations ≡ some is
          → ((i k : ℕ) → Moves 0 mask i k → contains k is ≡ contains i scan.relations)
          → (left : List ℕ) → drop_marked full_rel is ≡ some left
          → ((k : ℕ) → contains k left ≡ contains k is && not (marked full_rel k))
          → reads_inputs relations' scan.table left ≡ true
          → (b : Bool) → still_feeds (record scan { relations = left; output = out }) ≡ b
          → (moved : List (Scan Pred)) × (kept : List (Scan Pred)) × (IsRetained
              (scan ∷ rest)
              moved
              kept)
      step later kept x out eo o is ei m left el c a true f =
          let scan' = record scan { relations = left; output = out } in
          (
            record scan { relations = is } ∷ later,
            scan' ∷ kept,
            record {
              moves = rw (ei, x.moves) refl;
              retains = rw (eo, el, x.retains, f) refl;
              feeds_rel = λ r i k v. ground (arith, x.feeds_rel r i k v, c k, m i k v);
              feeds_output = λ r j. ground (arith, x.feeds_output r j, o j);
              reads = ground (arith, x.reads, a);
            },
          )
      step later kept x out eo o is ei m left el c a false f = (
        record scan { relations = is } ∷ later,
        kept,
        record {
          moves = rw (ei, x.moves) refl;
          retains = rw (eo, el, x.retains, f) refl;
          feeds_rel =
              λ r i k v. ground (arith, x.feeds_rel r i k v, c k, m i k v, contains-length k left);
          feeds_output = λ r j. ground (arith, x.feeds_output r j, o j, option_eq-is_some out j);
          reads = x.reads;
        },
      )
