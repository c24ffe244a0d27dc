-- ===== src/Query/Plan/Simplify.antt =====
-- `simplify` of plan/plan.rs and its helpers. `none` stands for a panic.
use data_lib.Query.Panics.{◌>>=◌}
use data_lib.Query.Rows.{remove_elements}
use data_lib.Query.Table.{Table, get_index, get_table, get_entry}
use data_lib.Query.Rel.{Rel, join, children, parents, input_table, output_table}
use data_lib.Query.Plan.{Scan, Output, Builder, names_eq, update_at}
use data_lib.Common.{
  ℕ, suc, String, Bool, true, false, ◌&&◌, ◌||◌, Option, none, some, List, [], ◌∷◌, ◌++◌, ltb,
  str_eq, if◌then◌else◌, length, get_elem?,
}

unfoldable pub is_some {ℓ} : {A : Type ℓ} → Option A → Bool
is_some none = false
is_some (some x) = true

unfoldable pub all_false {ℓ} : {A : Type ℓ} → List A → List Bool
all_false [] = []
all_false (x ∷ xs) = false ∷ all_false xs

unfoldable pub same_key : Option (List String) → List String → Bool
unfolding names_eq
same_key none key = false
same_key (some k) key = names_eq k key

-- Whether full input implies full output.
unfoldable pub is_full_rel : List Table → Rel → Option Bool
unfolding get_table names_eq get_entry same_key
is_full_rel tables (join input_table input_key output_table output_key) = do
  input_desc ← get_table tables input_table
  some (
      names_eq input_key input_desc.primary_key
      && same_key (get_entry input_desc.children output_table) output_key)
is_full_rel tables (children table key) = some true
is_full_rel tables (parents table key) = some true
is_full_rel tables rel = some false

-- `is_full` and `is_full_rel`
abbrev pub Marks : Type 0
Marks = List Bool × List Bool

module _ (tables : List Table) where
  unfoldable pub mark_rel_output : Rel → List Bool → Option (List Bool)
  unfolding is_full_rel get_index update_at
  mark_rel_output rel is_full = do
    full ← is_full_rel tables rel
    (if full
        then (get_index tables (output_table rel) >>= λ out_idx.
            update_at (λ b. true) out_idx is_full)
        else some is_full)

  unfoldable pub remove_mask : List Bool → List Rel → Option (List Bool)
  unfolding get_index
  remove_mask full [] = some []
  remove_mask full (rel ∷ rest) = do
    out_idx ← get_index tables (output_table rel)
    remove ← get_elem? full out_idx
    later ← remove_mask full rest
    some (remove ∷ later)

module _ (tables : List Table) (relations : List Rel) where
  unfoldable pub mark_rels : List ℕ → Marks → Option Marks
  unfolding mark_rel_output update_at
  mark_rels [] marks = some marks
  mark_rels (rel_idx ∷ rest) (full, full_rel) = do
    full_rel' ← update_at (λ b. true) rel_idx full_rel
    rel ← get_elem? relations rel_idx
    full' ← mark_rel_output tables rel full
    mark_rels rest (full', full_rel')

  unfoldable pub mark_output : Option ℕ → List Bool → Option (List Bool)
  unfolding update_at
  mark_output none full = some full
  mark_output (some out_idx) full = update_at (λ b. true) out_idx full

  module _ {Pred : Type 0} where
    unfoldable pub mark_scan : Scan Pred → Marks → Option Marks
    unfolding is_some mark_output mark_rels
    mark_scan scan (full, full_rel) =
        if is_some scan.predicate
        then some (full, full_rel)
        else (mark_output scan.output full >>= λ full'. mark_rels scan.relations (full', full_rel))

    unfoldable pub mark_scans : List (Scan Pred) → Marks → Option Marks
    unfolding mark_scan
    mark_scans [] marks = some marks
    mark_scans (scan ∷ rest) marks = mark_scan scan marks >>= mark_scans rest

-- `index_map` of `remove_relations`; `idx` is its counter.
unfoldable pub index_map : ℕ → List Bool → List (Option ℕ)
index_map idx [] = []
index_map idx (remove ∷ rest) =
    let dropped = index_map idx rest in
    let counted = index_map (suc idx) rest in if remove then none ∷ dropped else some idx ∷ counted

abbrev pub push_some {ℓ} : {A : Type ℓ} → Option A → List A → List A
push_some none xs = xs
push_some (some x) xs = x ∷ xs

unfoldable pub renumber : List (Option ℕ) → List ℕ → Option (List ℕ)
renumber index [] = some []
renumber index (rel_idx ∷ rest) = do
  moved ← get_elem? index rel_idx
  later ← renumber index rest
  some (push_some moved later)

-- `retain(|&i| !is_full_rel[i])`
unfoldable pub drop_marked : List Bool → List ℕ → Option (List ℕ)
drop_marked full_rel [] = some []
drop_marked full_rel (i ∷ rest) = do
  full ← get_elem? full_rel i
  later ← drop_marked full_rel rest
  some (if full then later else i ∷ later)

-- `scan.output` without an output that is fully fetched.
unfoldable pub drop_output : List Bool → Option ℕ → Option (Option ℕ)
drop_output full none = some none
drop_output full (some out_idx) =
    get_elem? full out_idx >>= λ f. some (if f then none else some out_idx)

-- Whether `assert_scan_relation_invariant` passes for one scan; an index out of range panics too.
unfoldable pub reads_inputs : List Rel → String → List ℕ → Bool
reads_inputs relations table [] = true
reads_inputs relations table (rel_idx ∷ rest) = elim (get_elem? relations rel_idx) [
  | none ↦ false
  | some rel ↦ str_eq (input_table rel) table && reads_inputs relations table rest
]

module _ {Pred : Type 0} where
  unfoldable pub renumber_scans : List (Option ℕ) → List (Scan Pred) → Option (List (Scan Pred))
  unfolding renumber
  renumber_scans index [] = some []
  renumber_scans index (scan ∷ rest) = do
    relations ← renumber index scan.relations
    later ← renumber_scans index rest
    some (record scan { relations = relations } ∷ later)

  -- The closure of `retain_mut` keeps a scan with a predicate that still feeds something.
  abbrev pub still_feeds : Scan Pred → Bool
  still_feeds scan =
      is_some scan.predicate && (ltb 0 (length scan.relations) || is_some scan.output)

  unfoldable pub retain_scans : Marks → List (Scan Pred) → Option (List (Scan Pred))
  unfolding drop_marked drop_output is_some
  retain_scans marks [] = some []
  retain_scans (full, full_rel) (scan ∷ rest) = do
    output ← drop_output full scan.output
    relations ← drop_marked full_rel scan.relations
    later ← retain_scans (full, full_rel) rest
    let scan' = record scan { relations = relations; output = output }
    some (if still_feeds scan' then scan' ∷ later else later)

  -- `new_scans.insert(table, scan)`: a map from tables to scans, in place of which stands the list
  -- of its values.
  unfoldable pub insert_scan : Scan Pred → List (Scan Pred) → List (Scan Pred)
  insert_scan scan [] = scan ∷ []
  insert_scan scan (s ∷ rest) =
      let later = insert_scan scan rest in
      if str_eq s.table scan.table then scan ∷ rest else s ∷ later

  -- `new_scans.entry(table).or_insert_with(…).relations.push(idx)`
  unfoldable pub push_rel : String → ℕ → List (Scan Pred) → List (Scan Pred)
  push_rel table idx [] =
      record { table = table; predicate = none; relations = idx ∷ []; output = none } ∷ []
  push_rel table idx (s ∷ rest) =
      let later = push_rel table idx rest in
      if str_eq s.table table
      then record s { relations = s.relations ++ idx ∷ [] } ∷ rest
      else s ∷ later

  -- The loop over the outputs from index `out_idx` on.
  unfoldable pub refill_outputs :
      ℕ → List Bool → List Output → List (Scan Pred) → Option (List (Scan Pred))
  unfolding insert_scan
  refill_outputs out_idx [] outputs scans = some scans
  refill_outputs out_idx (full ∷ rest) [] scans =
      let later = refill_outputs (suc out_idx) rest [] scans in if full then none else later
  refill_outputs out_idx (full ∷ rest) (output ∷ outputs) scans =
      refill_outputs (suc out_idx) rest outputs (
        if full
        then insert_scan
            (record {
              table = output.table;
              predicate = none;
              relations = [];
              output = some out_idx;
            })
            scans
        else scans)

  -- The loop over the relations from index `idx` on.
  unfoldable pub refill_relations :
      ℕ → List Bool → List Rel → List (Scan Pred) → Option (List (Scan Pred))
  unfolding push_rel
  refill_relations idx full_rel [] scans = some scans
  refill_relations idx [] (rel ∷ relations) scans = none
  refill_relations idx (full ∷ rest) (rel ∷ relations) scans =
      refill_relations (suc idx) rest relations
        (if full then push_rel (input_table rel) idx scans else scans)

  unfoldable pub assert_scan_relation_invariant : List Rel → List (Scan Pred) → Bool
  unfolding reads_inputs
  assert_scan_relation_invariant relations [] = true
  assert_scan_relation_invariant relations (scan ∷ rest) =
      reads_inputs relations scan.table scan.relations
      && assert_scan_relation_invariant relations rest

  unfoldable pub all_predicated : List (Scan Pred) → Bool
  unfolding is_some
  all_predicated [] = true
  all_predicated (scan ∷ rest) = is_some scan.predicate && all_predicated rest

  unfoldable pub rewrite_plan : Builder Pred → Option (Builder Pred)
  unfolding all_false mark_scans remove_mask index_map renumber_scans retain_scans refill_outputs
      refill_relations assert_scan_relation_invariant
  rewrite_plan b = do
    marks ← mark_scans b.tables b.relations b.scans (all_false b.outputs, all_false b.relations)
    mask ← remove_mask b.tables marks.0 b.relations
    full_rel ← remove_elements marks.1 mask
    relations ← remove_elements b.relations mask
    moved ← renumber_scans (index_map 0 mask) b.scans
    kept ← retain_scans (marks.0, full_rel) moved
    refilled ← refill_outputs 0 marks.0 b.outputs []
    new_scans ← refill_relations 0 full_rel relations refilled
    (if assert_scan_relation_invariant relations (kept ++ new_scans)
        then some (record b { scans = kept ++ new_scans; relations = relations })
        else none)

  unfoldable pub simplify : Builder Pred → Option (Builder Pred)
  unfolding all_predicated rewrite_plan
  simplify b = if all_predicated b.scans then some b else rewrite_plan b
