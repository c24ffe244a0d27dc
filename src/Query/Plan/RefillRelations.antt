-- ===== src/Query/Plan/RefillRelations.antt =====
-- The loop over the relations in `simplify` of plan/plan.rs, and both loops together.
use data_lib.Query.Rows.{any}
use data_lib.Query.Rel.{Rel, input_table}
use data_lib.Query.Plan.{Scan, Output}
use data_lib.Query.Plan.Execute.{ChunkData}
use data_lib.Query.Plan.Simplify.{
  push_rel, refill_outputs, refill_relations, assert_scan_relation_invariant,
}
use data_lib.Query.Plan.Marks.{marked}
use data_lib.Query.Plan.Retain.{ReadsTable}
use data_lib.Common.{
  ℕ, suc, ◌+◌, ◌≡◌, refl, sym, ap, ◌∙◌, subst, Bool, true, false, ◌&&◌, ◌||◌, some, List, [], ◌∷◌,
  arith, length, get_elem?, All,
}
use data_lib.Query.Plan.Refill.{
  refilled_relations-marked, refilled_outputs-marked, refilled_outputs, IsRefilled, has_row,
  brings_rel, IsFull, refilled_relations, brings_out, IsNew, IsDistinct,
}
use data_lib.Query.Plan.RefillOutputs.{refill_outputs-IsRefilled}
use data_lib.Query.Plan.PushRel.{
  brings_rel-push_rel, brings_out-push_rel, assert-push_rel, push_rel-IsFull,
}

module _ {Pred : Type 0} (chunk : ChunkData Pred) where
  module _ (relations' : List Rel) where
    pub refill_relations-IsRefilled :
        (n : ℕ) (marks : List Bool) (relations : List Rel) (scans : List (Scan Pred))
        → length marks ≡ length relations
        → ((d : ℕ) (rel : Rel)
            → get_elem? relations d ≡ some rel
            → get_elem? relations' (n + d) ≡ some rel)
        → All IsFull scans
        → assert_scan_relation_invariant relations' scans ≡ true
        → (after : List (Scan Pred)) × (refill_relations n marks relations scans ≡ some after)
          × (IsRefilled chunk relations' scans after
              (λ r j. false)
              (λ r. refilled_relations chunk r n marks relations))
    unfolding refill_relations refilled_relations
    refill_relations-IsRefilled n [] [] scans l at f a = (
      scans,
      refl,
      record { out = λ r j. ground arith; rel = λ r k. ground arith; full = f; reads = a },
    )
    refill_relations-IsRefilled n [] (rel ∷ relations) scans l at f a = absurd (omega (arith, l))
    refill_relations-IsRefilled n (m ∷ marks) [] scans l at f a = absurd (omega (arith, l))
    refill_relations-IsRefilled n (m ∷ marks) (rel ∷ relations) scans l at f a =
        step m (λ next f' a'.
          refill_relations-IsRefilled (suc n) marks relations next (omega (arith, l)) later f' a')
      where
        later :
            (d : ℕ) (x : Rel)
            → get_elem? relations d ≡ some x
            → get_elem? relations' (suc n + d) ≡ some x
        later d x e =
            let shift : n + suc d ≡ suc n + d = omega arith in
            subst (λ t. get_elem? relations' t ≡ some x) shift (at (suc d) x e)

        reads : ReadsTable relations' (input_table rel) n
        reads =
            let shift : n + 0 ≡ n = omega arith in
            (rel, subst (λ t. get_elem? relations' t ≡ some rel) shift (at 0 rel refl), refl)

        step :
            (m : Bool)
            → ((next : List (Scan Pred))
                → All IsFull next
                → assert_scan_relation_invariant relations' next ≡ true
                → (after : List (Scan Pred)) × (refill_relations (suc n) marks relations next
                    ≡ some after)
                  × (IsRefilled chunk relations' next after
                      (λ r j. false)
                      (λ r. refilled_relations chunk r (suc n) marks relations)))
            → (after : List (Scan Pred)) × (refill_relations n (m ∷ marks) (rel ∷ relations) scans
                ≡ some after)
              × (IsRefilled chunk relations' scans after
                  (λ r j. false)
                  (λ r. refilled_relations chunk r n (m ∷ marks) (rel ∷ relations)))
        step true rest =
            let pushed = push_rel (input_table rel) n scans in
            let ih =
              rest pushed (push_rel-IsFull chunk relations' (input_table rel) n scans f)
                (assert-push_rel chunk relations' (input_table rel) n scans reads a) in
            (
              ih.0,
              ih.1,
              record {
                out = λ r j.
                    ih.2.out r j
                    ∙ ap (λ b. b || false)
                        (brings_out-push_rel chunk relations' r (input_table rel) n j scans);
                rel = λ r k. ground (
                  arith,
                  ih.2.rel r k,
                  brings_rel-push_rel chunk relations' r (input_table rel) n k scans f,
                );
                full = ih.2.full;
                reads = ih.2.reads;
              },
            )
        step false rest =
            let ih = rest scans f a in
            (
              ih.0,
              ih.1,
              record {
                out = ih.2.out;
                rel = λ r k. ground (arith, ih.2.rel r k);
                full = ih.2.full;
                reads = ih.2.reads;
              },
            )

  nothing-IsNew : (outputs : List Output) → IsNew {Pred = Pred} [] outputs
  nothing-IsNew [] = tt
  nothing-IsNew (o ∷ outputs) = (tt, nothing-IsNew outputs)

  -- The new scans bring every row of the tables that are marked, to the outputs and the relations
  -- that are marked, and nothing else.
  pub record IsFresh (full full_rel : List Bool) (outputs : List Output) (relations : List Rel)
      (refilled new_scans : List (Scan Pred)) : Type 0 where
    pub outs : refill_outputs 0 full outputs [] ≡ some refilled
    pub rels : refill_relations 0 full_rel relations refilled ≡ some new_scans
    pub new_out :
        (r j : ℕ) (o : Output)
        → get_elem? outputs j ≡ some o
        → brings_out chunk r j new_scans ≡ marked full j && has_row chunk r o.table
    pub new_rel :
        (r k : ℕ) (rel : Rel)
        → get_elem? relations k ≡ some rel
        → brings_rel chunk r k new_scans ≡ marked full_rel k && has_row chunk r (input_table rel)
    pub reads : assert_scan_relation_invariant relations new_scans ≡ true

  pub refill-IsFresh :
      (full full_rel : List Bool) (outputs : List Output) (relations : List Rel)
      → length full ≡ length outputs
      → length full_rel ≡ length relations
      → IsDistinct outputs
      → (refilled : List (Scan Pred)) × (new_scans : List (Scan Pred)) × (IsFresh full full_rel
          outputs relations refilled new_scans)
  refill-IsFresh full full_rel outputs relations l k d =
      let first =
        refill_outputs-IsRefilled chunk relations 0 full outputs [] l d (nothing-IsNew outputs) tt
          (unfold assert_scan_relation_invariant in refl) in
      let second =
        refill_relations-IsRefilled relations 0 full_rel relations first.0 k
          (λ i rel e. subst (λ t. get_elem? relations t ≡ some rel) (zero_add i) e) first.2.full
          first.2.reads in
      (
        first.0,
        second.0,
        record {
          outs = first.1;
          rels = second.1;
          new_out = λ r j o e.
              let filled =
                subst
                  (λ t.
                    refilled_outputs chunk r 0 full outputs t
                    ≡ marked full j && has_row chunk r o.table)
                  (sym (zero_add j)) (refilled_outputs-marked chunk r 0 full outputs j o e) in
              ground (arith, first.2.out r j, second.2.out r j, filled, none_out r j);
          new_rel = λ r i rel e.
              let filled =
                subst
                  (λ t.
                    refilled_relations chunk r 0 full_rel relations t
                    ≡ marked full_rel i && has_row chunk r (input_table rel))
                  (sym (zero_add i))
                  (refilled_relations-marked chunk r 0 full_rel relations i rel e) in
              ground (arith, first.2.rel r i, second.2.rel r i, filled, none_rel r i);
          reads = second.2.reads;
        },
      )
    where
      zero_add : (i : ℕ) → i ≡ 0 + i
      zero_add i = omega arith

      none_out : (r j : ℕ) → brings_out chunk r j [] ≡ false
      none_out r j = unfold any in refl

      none_rel : (r j : ℕ) → brings_rel chunk r j [] ≡ false
      none_rel r j = unfold any in refl
