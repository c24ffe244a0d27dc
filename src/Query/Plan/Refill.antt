-- ===== src/Query/Plan/Refill.antt =====
-- The scans that `simplify` of plan/plan.rs introduces.
use data_lib.Query.Rows.{any, contains}
use data_lib.Query.Rel.{Rel, input_table}
use data_lib.Query.Plan.{Scan, Output}
use data_lib.Query.Plan.Execute.{ChunkData, option_eq, scan_rows}
use data_lib.Query.Plan.Simplify.{insert_scan, assert_scan_relation_invariant}
use data_lib.Query.Plan.Marks.{marked}
use data_lib.Common.{
  ℕ, zero, suc, ◌+◌, ◌<◌, ◌≡◌, refl, ap, subst, String, Bool, true, false, ◌&&◌, ◌||◌, none, some,
  List, [], ◌∷◌, ◌++◌, arith, ◌==◌, str_eq, get_elem?, All, All-append,
}

-- No two outputs are of one table.
abbrev pub IsDistinct : List Output → Type 0
IsDistinct [] = Unit
IsDistinct (o ∷ outputs) =
    (All (λ x. str_eq o.table x.table ≡ false) outputs) × (IsDistinct outputs)

module _ {Pred : Type 0} where
  -- No scan of the list reads the table of an output.
  abbrev pub IsNew : List (Scan Pred) → List Output → Type 0
  IsNew scans = All (λ o. All (λ s. str_eq s.table o.table ≡ false) scans)

  pub IsNew-append :
      (scans : List (Scan Pred)) (scan : Scan Pred) (outputs : List Output)
      → IsNew scans outputs
      → All (λ o. str_eq scan.table o.table ≡ false) outputs
      → IsNew (scans ++ scan ∷ []) outputs
  IsNew-append scans scan [] h k = tt
  IsNew-append scans scan (o ∷ outputs) h k = (
    All-append (λ s. str_eq s.table o.table ≡ false) scans (scan ∷ []) h.0 (k.0, tt),
    IsNew-append scans scan outputs h.1 k.1,
  )

  pub insert_scan-append :
      (scan : Scan Pred) (scans : List (Scan Pred))
      → All (λ s. str_eq s.table scan.table ≡ false) scans
      → insert_scan scan scans ≡ scans ++ scan ∷ []
  unfolding insert_scan
  insert_scan-append scan [] h = refl
  insert_scan-append scan (s ∷ scans) h = rw (h.0, insert_scan-append scan scans h.1) refl

  abbrev pub IsFull : Scan Pred → Type 0
  IsFull scan = scan.predicate ≡ none

  pub assert-append :
      (relations : List Rel) (xs ys : List (Scan Pred))
      → assert_scan_relation_invariant relations (xs ++ ys)
        ≡ assert_scan_relation_invariant relations xs && assert_scan_relation_invariant relations ys
  unfolding assert_scan_relation_invariant
  assert-append relations [] ys = refl
  assert-append relations (x ∷ xs) ys = ground (arith, assert-append relations xs ys)

module _ {Pred : Type 0} (chunk : ChunkData Pred) (r : ℕ) where
  abbrev pub reads_row : Scan Pred → Bool
  reads_row scan = contains r (scan_rows chunk scan)

  abbrev pub has_row : String → Bool
  has_row table = contains r (chunk.rows table)

  -- Whether a scan of the list brings the row to an output, or to a relation.
  abbrev pub brings_out : ℕ → List (Scan Pred) → Bool
  brings_out j scans = any (λ s. option_eq s.output j && reads_row s) scans

  abbrev pub brings_rel : ℕ → List (Scan Pred) → Bool
  brings_rel k scans = any (λ s. contains k s.relations && reads_row s) scans

  -- What the outputs, and the relations, from an index on are refilled with.
  unfoldable pub refilled_outputs : ℕ → List Bool → List Output → ℕ → Bool
  refilled_outputs n [] outputs j = false
  refilled_outputs n (full ∷ rest) [] j = false
  refilled_outputs n (full ∷ rest) (o ∷ outputs) j =
      (full && ((n == j) && has_row o.table)) || refilled_outputs (suc n) rest outputs j

  unfoldable pub refilled_relations : ℕ → List Bool → List Rel → ℕ → Bool
  refilled_relations n [] relations k = false
  refilled_relations n (full ∷ rest) [] k = false
  refilled_relations n (full ∷ rest) (rel ∷ relations) k =
      (full && ((n == k) && has_row (input_table rel)))
      || refilled_relations (suc n) rest relations k

  refilled_outputs-past :
      (n : ℕ) (full : List Bool) (outputs : List Output) (j : ℕ)
      → j < n
      → refilled_outputs n full outputs j ≡ false
  unfolding refilled_outputs
  refilled_outputs-past n [] outputs j h = refl
  refilled_outputs-past n (full ∷ rest) [] j h = refl
  refilled_outputs-past n (full ∷ rest) (o ∷ outputs) j h =
      ground (arith, refilled_outputs-past (suc n) rest outputs j (omega arith))

  pub refilled_outputs-marked :
      (n : ℕ) (full : List Bool) (outputs : List Output) (d : ℕ) (o : Output)
      → get_elem? outputs d ≡ some o
      → refilled_outputs n full outputs (n + d) ≡ marked full d && has_row o.table
  unfolding refilled_outputs marked
  refilled_outputs-marked n [] outputs d o h = refl
  refilled_outputs-marked n (full ∷ rest) [] d o h = absurd cc
  refilled_outputs-marked n (full ∷ rest) (x ∷ outputs) zero o h =
      let same : x ≡ o = cc in
      let table = ap (λ o. has_row o.table) same in
      ground (arith, table, refilled_outputs-past (suc n) rest outputs (n + 0) (omega arith))
  refilled_outputs-marked n (full ∷ rest) (x ∷ outputs) (suc d) o h =
      let shift : suc n + d ≡ n + suc d = omega arith in
      let ih =
        subst (λ t. refilled_outputs (suc n) rest outputs t ≡ marked rest d && has_row o.table)
          shift (refilled_outputs-marked (suc n) rest outputs d o h) in
      ground (arith, ih)

  refilled_relations-past :
      (n : ℕ) (full : List Bool) (relations : List Rel) (k : ℕ)
      → k < n
      → refilled_relations n full relations k ≡ false
  unfolding refilled_relations
  refilled_relations-past n [] relations k h = refl
  refilled_relations-past n (full ∷ rest) [] k h = refl
  refilled_relations-past n (full ∷ rest) (rel ∷ relations) k h =
      ground (arith, refilled_relations-past (suc n) rest relations k (omega arith))

  pub refilled_relations-marked :
      (n : ℕ) (full : List Bool) (relations : List Rel) (d : ℕ) (rel : Rel)
      → get_elem? relations d ≡ some rel
      → refilled_relations n full relations (n + d) ≡ marked full d && has_row (input_table rel)
  unfolding refilled_relations marked
  refilled_relations-marked n [] relations d rel h = refl
  refilled_relations-marked n (full ∷ rest) [] d rel h = absurd cc
  refilled_relations-marked n (full ∷ rest) (x ∷ relations) zero rel h =
      let same : x ≡ rel = cc in
      let table = ap (λ rel. has_row (input_table rel)) same in
      ground (arith, table, refilled_relations-past (suc n) rest relations (n + 0) (omega arith))
  refilled_relations-marked n (full ∷ rest) (x ∷ relations) (suc d) rel h =
      let shift : suc n + d ≡ n + suc d = omega arith in
      let ih =
        subst
          (λ t.
            refilled_relations (suc n) rest relations t
            ≡ marked rest d && has_row (input_table rel))
          shift (refilled_relations-marked (suc n) rest relations d rel h) in
      ground (arith, ih)

module _ {Pred : Type 0} (chunk : ChunkData Pred) where
  module _ (relations' : List Rel) where
    -- What refilling does to the new scans.
    pub record IsRefilled (before after : List (Scan Pred)) (outs rels : ℕ → ℕ → Bool)
        : Type 0 where
      pub out : (r j : ℕ) → brings_out chunk r j after ≡ brings_out chunk r j before || outs r j
      pub rel : (r k : ℕ) → brings_rel chunk r k after ≡ brings_rel chunk r k before || rels r k
      pub full : All IsFull after
      pub reads : assert_scan_relation_invariant relations' after ≡ true
