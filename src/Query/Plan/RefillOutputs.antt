-- ===== src/Query/Plan/RefillOutputs.antt =====
-- The loop over the outputs in `simplify` of plan/plan.rs.
use data_lib.Query.Rows.{any, contains, any-append}
use data_lib.Query.Rel.{Rel}
use data_lib.Query.Plan.{Scan, Output}
use data_lib.Query.Plan.Execute.{ChunkData, option_eq, scan_rows}
use data_lib.Query.Plan.Simplify.{refill_outputs, reads_inputs, assert_scan_relation_invariant}
use data_lib.Query.Plan.Refill.{reads_row}
use data_lib.Common.{
  ℕ, suc, ◌≡◌, refl, Bool, true, false, ◌&&◌, ◌||◌, none, some, List, [], ◌∷◌, ◌++◌, arith, ◌==◌,
  length, All, All-append,
}
use data_lib.Query.Plan.Refill.{
  insert_scan-append, IsNew-append, IsRefilled, IsFull, IsNew, has_row, IsDistinct,
  refilled_outputs, brings_rel, brings_out, assert-append,
}

module _ {Pred : Type 0} (chunk : ChunkData Pred) where
  module _ (relations' : List Rel) where
    -- The scan that fills the output at `n`.
    abbrev fresh : ℕ → Output → Scan Pred
    fresh n o = record { table = o.table; predicate = none; relations = []; output = some n }

    brings_out-append :
        (r n j : ℕ) (o : Output) (scans : List (Scan Pred))
        → brings_out chunk r j (scans ++ fresh n o ∷ [])
          ≡ brings_out chunk r j scans || ((n == j) && has_row chunk r o.table)
    unfolding scan_rows option_eq any
    brings_out-append r n j o scans = ground (
      arith,
      any-append (λ s. option_eq s.output j && reads_row chunk r s) scans (fresh n o ∷ []),
    )

    brings_rel-append :
        (r n k : ℕ) (o : Output) (scans : List (Scan Pred))
        → brings_rel chunk r k (scans ++ fresh n o ∷ []) ≡ brings_rel chunk r k scans
    unfolding scan_rows contains any
    brings_rel-append r n k o scans = ground (
      arith,
      any-append (λ s. contains k s.relations && reads_row chunk r s) scans (fresh n o ∷ []),
    )

    assert-fresh :
        (n : ℕ) (o : Output) (scans : List (Scan Pred))
        → assert_scan_relation_invariant relations' scans ≡ true
        → assert_scan_relation_invariant relations' (scans ++ fresh n o ∷ []) ≡ true
    unfolding assert_scan_relation_invariant reads_inputs
    assert-fresh n o scans a = ground (arith, assert-append relations' scans (fresh n o ∷ []))

    pub refill_outputs-IsRefilled :
        (n : ℕ) (marks : List Bool) (outputs : List Output) (scans : List (Scan Pred))
        → length marks ≡ length outputs
        → IsDistinct outputs
        → IsNew scans outputs
        → All IsFull scans
        → assert_scan_relation_invariant relations' scans ≡ true
        → (after : List (Scan Pred)) × (refill_outputs n marks outputs scans ≡ some after)
          × (IsRefilled chunk relations' scans after
              (λ r. refilled_outputs chunk r n marks outputs)
              (λ r k. false))
    unfolding refill_outputs refilled_outputs
    refill_outputs-IsRefilled n [] outputs scans l d new f a = (
      scans,
      refl,
      record { out = λ r j. ground arith; rel = λ r k. ground arith; full = f; reads = a },
    )
    refill_outputs-IsRefilled n (m ∷ marks) [] scans l d new f a = absurd (omega (arith, l))
    refill_outputs-IsRefilled n (true ∷ marks) (o ∷ outputs) scans l d new f a =
        let ih =
          refill_outputs-IsRefilled (suc n) marks outputs (scans ++ fresh n o ∷ [])
            (omega (arith, l)) d.1 (IsNew-append scans (fresh n o) outputs new.1 d.0)
            (All-append IsFull scans (fresh n o ∷ []) f (refl, tt)) (assert-fresh n o scans a) in
        (
          ih.0,
          rw (insert_scan-append (fresh n o) scans new.0) ih.1,
          record {
            out = λ r j. ground (arith, ih.2.out r j, brings_out-append r n j o scans);
            rel = λ r k. ground (arith, ih.2.rel r k, brings_rel-append r n k o scans);
            full = ih.2.full;
            reads = ih.2.reads;
          },
        )
    refill_outputs-IsRefilled n (false ∷ marks) (o ∷ outputs) scans l d new f a =
        let ih =
          refill_outputs-IsRefilled (suc n) marks outputs scans (omega (arith, l)) d.1 new.1 f a in
        (
          ih.0,
          ih.1,
          record {
            out = λ r j. ground (arith, ih.2.out r j);
            rel = λ r k. ground (arith, ih.2.rel r k);
            full = ih.2.full;
            reads = ih.2.reads;
          },
        )
