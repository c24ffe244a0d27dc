-- ===== src/Query/Plan/Consistent.antt =====
-- What every method of `PlanBuilder` and `ScanBuilder` of plan/plan.rs keeps, and what `simplify` asks
-- for on top of it.
use data_lib.Query.Table.{get_index}
use data_lib.Query.Rel.{output_table}
use data_lib.Query.Plan.{Scan, Builder}
use data_lib.Query.Plan.Refill.{IsDistinct}
use data_lib.Query.Plan.Retain.{ReadsTable}
use data_lib.Query.Plan.Data.{IsWellFormed}
use data_lib.Common.{ℕ, ◌≡◌, ◌≢◌, none, some, List, [], ◌∷◌, map, All, ◌⊎◌, inl, inr}

module _ {Pred : Type 0} where
  -- The scan's table is a known one, its output is that of the table or left out, and its relations
  -- read the table.
  abbrev pub IsConsistentScan : Builder Pred → Scan Pred → Type 0
  IsConsistentScan b s =
      ((j : ℕ) × (get_index b.tables s.table ≡ some j) × ((s.output ≡ some j) ⊎ (s.output ≡ none)))
      × (All (ReadsTable b.relations s.table) s.relations)

  pub record IsConsistent (b : Builder Pred) : Type 0 where
    pub same_tables : map (λ o. o.table) b.outputs ≡ map (λ t. t.name) b.tables
    pub distinct : IsDistinct b.outputs
    pub scans : All (IsConsistentScan b) b.scans

  well_formed_scans :
      (b : Builder Pred) (scans : List (Scan Pred))
      → All (IsConsistentScan b) scans
      → All (λ s. s.output ≢ none) scans
      → All
          (λ (s : Scan Pred).
            ((j : ℕ) × (s.output ≡ some j) × (get_index b.tables s.table ≡ some j))
            × (All (ReadsTable b.relations s.table) s.relations))
          scans
  well_formed_scans b [] c o = tt
  well_formed_scans b (s ∷ scans) c o = (
    elim c.0.0.2 [ inl e ↦ ((c.0.0.0, e, c.0.0.1), c.0.1) | inr e ↦ absurd (o.0 e) ],
    well_formed_scans b scans c.1 o.1,
  )

  -- The plans that `simplify` takes: no scan without its output, no relation to an unknown table.
  pub IsConsistent-IsWellFormed :
      (b : Builder Pred)
      → IsConsistent b
      → All (λ s. s.output ≢ none) b.scans
      → All (λ rel. (j : ℕ) × (get_index b.tables (output_table rel) ≡ some j)) b.relations
      → IsWellFormed b
  IsConsistent-IsWellFormed b c o r = record {
    same_tables = c.same_tables;
    distinct = c.distinct;
    scans = well_formed_scans b b.scans c.scans o;
    relations = r;
  }
