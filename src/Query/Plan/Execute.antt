-- ===== src/Query/Plan/Execute.antt =====
-- `execute_scans` and `execute_relations` of plan/plan.rs: the rows that a plan selects of each
-- output. The data are a parameter, and their reads do not fail.
use data_lib.Query.Rows.{filter, contains, position}
use data_lib.Query.Rel.{Rel, output_table}
use data_lib.Query.Plan.{Scan, Output, Builder}
use data_lib.Common.{
  ℕ, suc, String, Bool, true, false, Option, none, some, List, [], ◌∷◌, ◌++◌, ◌==◌, str_eq,
  if◌then◌else◌,
}

-- A chunk of data: the rows of a table, those of them that a predicate takes, and the rows that a
-- relation yields for its input.
pub record ChunkData (Pred : Type 0) : Type 0 where
  pub rows : String → List ℕ
  pub takes : Pred → String → ℕ → Bool
  pub eval : Rel → List ℕ → List ℕ

unfoldable pub option_eq : Option ℕ → ℕ → Bool
option_eq none j = false
option_eq (some i) j = i == j

unfoldable pub get_output_index : List Output → String → Option ℕ
unfolding position
get_output_index outputs table = position (λ o. str_eq o.table table) outputs

abbrev pub is_empty : List ℕ → Bool
is_empty [] = true
is_empty (x ∷ xs) = false

module _ {Pred : Type 0} (chunk : ChunkData Pred) where
  unfoldable pub scan_rows : Scan Pred → List ℕ
  unfolding filter
  scan_rows scan = elim scan.predicate [
    | none ↦ chunk.rows scan.table
    | some p ↦ filter (chunk.takes p scan.table) (chunk.rows scan.table)
  ]

  -- `relation_inputs[rel_idx]` after the scans.
  unfoldable pub relation_input : List (Scan Pred) → ℕ → List ℕ
  unfolding scan_rows contains
  relation_input [] rel_idx = []
  relation_input (scan ∷ rest) rel_idx =
      let later = relation_input rest rel_idx in
      if contains rel_idx scan.relations then scan_rows scan ++ later else later

  -- `output_inputs[out_idx]` after the scans.
  unfoldable pub scanned_output : List (Scan Pred) → ℕ → List ℕ
  unfolding scan_rows option_eq
  scanned_output [] out_idx = []
  scanned_output (scan ∷ rest) out_idx =
      let later = scanned_output rest out_idx in
      if option_eq scan.output out_idx then scan_rows scan ++ later else later

  -- What one relation adds to the output at `out_idx`. The output of its table exists in every plan
  -- whose tables are defined; without it the code panics, and here nothing is added.
  unfoldable pub eval_into : List Output → ℕ → Rel → List ℕ → List ℕ
  unfolding option_eq get_output_index
  eval_into outputs out_idx rel input =
      if is_empty input
      then []
      else if option_eq (get_output_index outputs (output_table rel)) out_idx
      then chunk.eval rel input
      else []

  -- What the relations from index `idx` on add to it; `inputs` are the relation inputs.
  unfoldable pub related_output : List Output → (ℕ → List ℕ) → ℕ → ℕ → List Rel → List ℕ
  unfolding eval_into
  related_output outputs inputs out_idx idx [] = []
  related_output outputs inputs out_idx idx (rel ∷ rest) =
      eval_into outputs out_idx rel (inputs idx)
      ++ related_output outputs inputs out_idx (suc idx) rest

  -- `output_inputs[out_idx]` after scans and relations.
  unfoldable pub selected_rows : Builder Pred → ℕ → List ℕ
  unfolding relation_input scanned_output related_output
  selected_rows plan out_idx =
      scanned_output plan.scans out_idx
      ++ related_output plan.outputs (relation_input plan.scans) out_idx 0 plan.relations
