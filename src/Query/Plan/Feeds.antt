-- ===== src/Query/Plan/Feeds.antt =====
-- The rows that the scans of a plan bring to a relation or to an output, of plan/plan.rs.
use data_lib.Query.Rows.{any, contains, contains-append}
use data_lib.Query.Plan.{Scan, Builder}
use data_lib.Query.Plan.Execute.{
  ChunkData, option_eq, scan_rows, relation_input, scanned_output, related_output, selected_rows,
}
use data_lib.Query.Plan.Simplify.{is_some}
use data_lib.Query.Plan.Data.{contains-scanned_output, reads_row-has_row}
use data_lib.Query.Plan.Marks.{fills}
use data_lib.Query.Plan.Refill.{brings_out, brings_rel, has_row, reads_row}
use data_lib.Common.{
  ℕ, ◌≡◌, refl, ap, ◌∙◌, subst, String, Bool, true, false, ◌||◌, Option, none, some, List, [], ◌∷◌,
  arith, All,
}

module _ {Pred : Type 0} (chunk : ChunkData Pred) (r : ℕ) where
  -- A scan without a predicate selects its whole table.
  pub reads_row-full :
      (s : Scan Pred) → is_some s.predicate ≡ false → reads_row chunk r s ≡ has_row chunk r s.table
  unfolding scan_rows is_some
  reads_row-full s h = at s.predicate refl
    where
      at : (o : Option Pred) → s.predicate ≡ o → reads_row chunk r s ≡ has_row chunk r s.table
      at none e = rw (e) refl
      at (some p) e = absurd (let g : true ≡ false = rw (e) at h in cc)

  -- The rows of a relation's input are rows of its input table.
  pub brings_rel-has_row :
      (table : String) (k : ℕ) (scans : List (Scan Pred))
      → All (λ (s : Scan Pred). contains k s.relations ≡ true → s.table ≡ table) scans
      → brings_rel chunk r k scans ≡ true
      → has_row chunk r table ≡ true
  unfolding any
  brings_rel-has_row table k [] h q = absurd cc
  brings_rel-has_row table k (s ∷ scans) h q =
      at _ refl _ refl (brings_rel-has_row table k scans h.1)
    where
      at :
          (b : Bool)
          → contains k s.relations ≡ b
          → (c : Bool) → reads_row chunk r s ≡ c
          → (brings_rel chunk r k scans ≡ true → has_row chunk r table ≡ true)
          → has_row chunk r table ≡ true
      at true e true f ih =
          subst (λ t. has_row chunk r t ≡ true) (h.0 e) (reads_row-has_row chunk r s f)
      at true e false f ih = ih (ground (arith, q, e, f))
      at false e c f ih = ih (ground (arith, q, e, f))

  -- A relation that a scan without a predicate feeds has its whole input table.
  pub brings_rel-fills :
      (table : String) (k : ℕ) (scans : List (Scan Pred))
      → All (λ (s : Scan Pred). contains k s.relations ≡ true → s.table ≡ table) scans
      → any (fills k) scans ≡ true
      → brings_rel chunk r k scans ≡ has_row chunk r table
  unfolding any fills
  brings_rel-fills table k [] h q = absurd cc
  brings_rel-fills table k (s ∷ scans) h q =
      at _ refl _ refl (brings_rel-has_row table k (s ∷ scans) h)
        (brings_rel-fills table k scans h.1)
    where
      at :
          (b : Bool)
          → is_some s.predicate ≡ b
          → (c : Bool) → contains k s.relations ≡ c
          → (brings_rel chunk r k (s ∷ scans) ≡ true → has_row chunk r table ≡ true)
          → (any (fills k) scans ≡ true → brings_rel chunk r k scans ≡ has_row chunk r table)
          → brings_rel chunk r k (s ∷ scans) ≡ has_row chunk r table
      at false e true f sub ih =
          let whole = reads_row-full s e ∙ ap (has_row chunk r) (h.0 f) in
          ground (arith, sub, whole, f)
      at false e false f sub ih = ground (arith, ih (ground (arith, q, e, f)), f)
      at true e c f sub ih = ground (arith, sub, ih (ground (arith, q, e)))

  -- What the scans bring to an output are rows of its table.
  pub brings_out-has_row :
      (table : String) (j : ℕ) (scans : List (Scan Pred))
      → All (λ (s : Scan Pred). option_eq s.output j ≡ true → s.table ≡ table) scans
      → brings_out chunk r j scans ≡ true
      → has_row chunk r table ≡ true
  unfolding any
  brings_out-has_row table j [] h q = absurd cc
  brings_out-has_row table j (s ∷ scans) h q =
      at _ refl _ refl (brings_out-has_row table j scans h.1)
    where
      at :
          (b : Bool)
          → option_eq s.output j ≡ b
          → (c : Bool) → reads_row chunk r s ≡ c
          → (brings_out chunk r j scans ≡ true → has_row chunk r table ≡ true)
          → has_row chunk r table ≡ true
      at true e true f ih =
          subst (λ t. has_row chunk r t ≡ true) (h.0 e) (reads_row-has_row chunk r s f)
      at true e false f ih = ih (ground (arith, q, e, f))
      at false e c f ih = ih (ground (arith, q, e, f))

  pub contains-selected_rows :
      (b : Builder Pred) (j : ℕ)
      → contains r (selected_rows chunk b j)
        ≡ brings_out chunk r j b.scans
          || contains r
              (related_output chunk b.outputs (relation_input chunk b.scans) j 0 b.relations)
  unfolding selected_rows
  contains-selected_rows b j =
      contains-append r (scanned_output chunk b.scans j)
        (related_output chunk b.outputs (relation_input chunk b.scans) j 0 b.relations)
      ∙ ap
          (λ t.
            t
            || contains r
                (related_output chunk b.outputs (relation_input chunk b.scans) j 0 b.relations))
          (contains-scanned_output chunk r b.scans j)
