-- ===== src/Query/Plan/PushRel.antt =====
-- `new_scans.entry(table)` in `simplify` of plan/plan.rs: a relation that a new scan is to feed.
use data_lib.Query.Rows.{any, contains, any-append}
use data_lib.Query.Rel.{Rel, input_table}
use data_lib.Query.Plan.{Scan}
use data_lib.Query.Plan.Execute.{ChunkData, option_eq, scan_rows}
use data_lib.Query.Plan.Simplify.{push_rel, reads_inputs, assert_scan_relation_invariant}
use data_lib.Query.Plan.Retain.{ReadsTable}
use data_lib.Query.Plan.Refill.{reads_row}
use data_lib.Common.{
  ℕ, ◌≡◌, refl, sym, ap, subst, String, true, false, ◌&&◌, ◌||◌, Option, none, some, List, [], ◌∷◌,
  ◌++◌, arith, ◌==◌, str_eq, eq_iff, get_elem?, All, Bool-cases, inl, inr,
}
use data_lib.Query.Plan.Refill.{has_row, brings_rel, brings_out, IsFull}

module _ {Pred : Type 0} (chunk : ChunkData Pred) where
  module _ (relations' : List Rel) where
    pub brings_out-push_rel :
        (r : ℕ) (table : String) (idx j : ℕ) (scans : List (Scan Pred))
        → brings_out chunk r j (push_rel table idx scans) ≡ brings_out chunk r j scans
    unfolding push_rel any scan_rows option_eq
    brings_out-push_rel r table idx j [] = refl
    brings_out-push_rel r table idx j (s ∷ scans) = elim (Bool-cases (str_eq s.table table)) [
      | inl q ↦ rw (q) refl
      | inr q ↦ rw (q) (
          ap (λ b. (option_eq s.output j && reads_row chunk r s) || b)
            (brings_out-push_rel r table idx j scans))
    ]

    full_scan_rows :
        (r : ℕ) (s : Scan Pred) → IsFull s → reads_row chunk r s ≡ has_row chunk r s.table
    unfolding scan_rows
    full_scan_rows r s h = rw (h) refl

    pub brings_rel-push_rel :
        (r : ℕ) (table : String) (idx k : ℕ) (scans : List (Scan Pred))
        → All IsFull scans
        → brings_rel chunk r k (push_rel table idx scans)
          ≡ brings_rel chunk r k scans || ((idx == k) && has_row chunk r table)
    unfolding push_rel any contains
    brings_rel-push_rel r table idx k [] f = unfold scan_rows in ground arith
    brings_rel-push_rel r table idx k (s ∷ scans) f = elim (Bool-cases (str_eq s.table table)) [
      | inl q ↦ rw (q) (here q)
      | inr q ↦ rw (q) (ground (arith, brings_rel-push_rel r table idx k scans f.1))
    ]
      where
        here :
            str_eq s.table table ≡ true
            → ((contains k (s.relations ++ idx ∷ [])
                  && reads_row chunk r (record s { relations = s.relations ++ idx ∷ [] }))
                || brings_rel chunk r k scans)
              ≡ (brings_rel chunk r k (s ∷ scans) || ((idx == k) && has_row chunk r table))
        here q =
            let same = ap (has_row chunk r) ((eq_iff s.table table).0 q) in
            let whole = full_scan_rows r s f.0 in
            let pushed = full_scan_rows r (record s { relations = s.relations ++ idx ∷ [] }) f.0 in
            ground (arith, same, whole, pushed, any-append (λ x. x == k) s.relations (idx ∷ []))

    pub push_rel-IsFull :
        (table : String) (idx : ℕ) (scans : List (Scan Pred))
        → All IsFull scans
        → All IsFull (push_rel table idx scans)
    unfolding push_rel
    push_rel-IsFull table idx [] f = (refl, tt)
    push_rel-IsFull table idx (s ∷ scans) f = elim (Bool-cases (str_eq s.table table)) [
      | inl q ↦ rw (q) f
      | inr q ↦ rw (q) (f.0, push_rel-IsFull table idx scans f.1)
    ]

    reads_inputs-cons :
        (table : String) (i : ℕ) (is : List ℕ) (rel : Rel)
        → get_elem? relations' i ≡ some rel
        → reads_inputs relations' table (i ∷ is)
          ≡ str_eq (input_table rel) table && reads_inputs relations' table is
    unfolding reads_inputs
    reads_inputs-cons table i is rel e = rw (reads_inputs, e) refl

    reads_inputs-none :
        (table : String) (i : ℕ) (is : List ℕ)
        → get_elem? relations' i ≡ none
        → reads_inputs relations' table (i ∷ is) ≡ false
    unfolding reads_inputs
    reads_inputs-none table i is e = rw (reads_inputs, e) refl

    reads_inputs-append :
        (table : String) (is : List ℕ) (idx : ℕ)
        → reads_inputs relations' table is ≡ true
        → ReadsTable relations' table idx
        → reads_inputs relations' table (is ++ idx ∷ []) ≡ true
    reads_inputs-append table [] idx h k =
        let same = (eq_iff (input_table k.0) table).1 k.2 in
        ground (arith, same, h, reads_inputs-cons table idx [] k.0 k.1)
    reads_inputs-append table (i ∷ is) idx h k =
        at _ refl (λ g. reads_inputs-append table is idx g k)
      where
        at :
            (o : Option Rel)
            → get_elem? relations' i ≡ o
            → (reads_inputs relations' table is ≡ true
                → reads_inputs relations' table (is ++ idx ∷ []) ≡ true)
            → reads_inputs relations' table ((i ∷ is) ++ idx ∷ []) ≡ true
        at none e ih = absurd (let gone = reads_inputs-none table i is e in cc)
        at (some rel) e ih = ground (
          arith,
          ih,
          reads_inputs-cons table i is rel e,
          reads_inputs-cons table i (is ++ idx ∷ []) rel e,
        )

    pub assert-push_rel :
        (table : String) (idx : ℕ) (scans : List (Scan Pred))
        → ReadsTable relations' table idx
        → assert_scan_relation_invariant relations' scans ≡ true
        → assert_scan_relation_invariant relations' (push_rel table idx scans) ≡ true
    unfolding push_rel assert_scan_relation_invariant
    assert-push_rel table idx [] k a =
        ground (arith, reads_inputs-append table [] idx (unfold reads_inputs in refl) k)
    assert-push_rel table idx (s ∷ scans) k a = elim (Bool-cases (str_eq s.table table)) [
      | inl q ↦
          let same = (eq_iff s.table table).0 q in
          let moved = subst (λ t. ReadsTable relations' t idx) (sym same) k in
          rw (q) (
            ground
              (arith, a, reads_inputs-append s.table s.relations idx (ground (arith, a)) moved))
      | inr q ↦ rw (q) (ground (arith, a, assert-push_rel table idx scans k (ground (arith, a))))
    ]
