-- ===== src/Query/Plan.antt =====
-- `PlanBuilder` and `ScanBuilder` of plan/plan.rs. A builder is also the `Plan` that it builds: the
-- two structs have the same fields. `none` stands for a panic.
pub mod ParentBlock
pub mod Weights
pub mod Simplify
pub mod Execute
pub mod Marks
pub mod Grows
pub mod Renumber
pub mod Retain
pub mod Refill
pub mod RefillOutputs
pub mod PushRel
pub mod RefillRelations
pub mod Data
pub mod Covered
pub mod Built
pub mod Consistent
pub mod Attach
pub mod Projection
pub mod Tables
pub mod Invariant
pub mod Removed
pub mod Feeds
pub mod Rewritten
pub mod Selected
use data_lib.Query.Panics.{◌>>=◌}
use data_lib.Query.Rows.{any, filter, contains, position, remove_elements}
use data_lib.Query.Table.{Table, ColumnWeight, fixed, stored, get_index, get_table, get_entry}
use data_lib.Query.Rel.{
  Rel, join, foreign_children, foreign_parents, children, parents, input_table, output_table,
}
use data_lib.Common.{
  ℕ, zero, suc, ◌+◌, String, Bool, true, false, not, ◌&&◌, ◌||◌, Option, none, some, List, [], ◌∷◌,
  ◌++◌, map, ltb, ◌==◌, str_eq, if◌then◌else◌, length, get_elem?,
}

-- A row predicate is one of the scan crate's; the plan only passes it on.
pub record Scan (Pred : Type 0) : Type 0 where
  pub table : String
  pub predicate : Option Pred
  pub relations : List ℕ
  pub output : Option ℕ

-- Of `exp` the plan reads the columns that it names.
pub record Output : Type 0 where
  pub table : String
  pub key : List String
  pub projection : List String
  pub weight_per_row : ℕ
  pub weight_columns : List String
  pub exp : List String
  pub item_name : String

pub record Builder (Pred : Type 0) : Type 0 where
  pub tables : List Table
  pub scans : List (Scan Pred)
  pub relations : List Rel
  pub outputs : List Output
  pub include_all_blocks : Bool
  pub parent_block_hash : Option String
  pub first_block : Option ℕ
  pub last_block : Option ℕ

unfoldable pub new_output : Table → Output
new_output t = record {
  table = t.name;
  key = t.primary_key;
  projection = [];
  weight_per_row = 0;
  weight_columns = [];
  exp = [];
  item_name = t.result_item_name;
}

unfoldable pub names_eq : List String → List String → Bool
names_eq [] [] = true
names_eq [] (y ∷ ys) = false
names_eq (x ∷ xs) [] = false
names_eq (x ∷ xs) (y ∷ ys) = str_eq x y && names_eq xs ys

unfoldable pub rel_eq : Rel → Rel → Bool
unfolding names_eq
rel_eq (join it ik ot ok) (join it' ik' ot' ok') =
    str_eq it it' && names_eq ik ik' && str_eq ot ot' && names_eq ok ok'
rel_eq (foreign_children it ik ot ok) (foreign_children it' ik' ot' ok') =
    str_eq it it' && names_eq ik ik' && str_eq ot ot' && names_eq ok ok'
rel_eq (foreign_parents it ik ot ok) (foreign_parents it' ik' ot' ok') =
    str_eq it it' && names_eq ik ik' && str_eq ot ot' && names_eq ok ok'
rel_eq (children t k) (children t' k') = str_eq t t' && names_eq k k'
rel_eq (parents t k) (parents t' k') = str_eq t t' && names_eq k k'
rel_eq r r' = false

-- `vec[i] = f(vec[i])`
unfoldable pub update_at {ℓ} : {A : Type ℓ} → (A → A) → ℕ → List A → Option (List A)
update_at f i [] = none
update_at f zero (x ∷ xs) = some (f x ∷ xs)
update_at f (suc i) (x ∷ xs) = update_at f i xs >>= λ ys. some (x ∷ ys)

-- The relation's index, and the relations with it among them.
unfoldable pub add_rel : Rel → List Rel → ℕ × List Rel
unfolding position rel_eq
add_rel rel relations = elim (position (λ r. rel_eq r rel) relations) [
  | some i ↦ (i, relations)
  | none ↦ (length relations, relations ++ rel ∷ [])
]

module _ {Pred : Type 0} where
  unfoldable pub new_builder : List Table → Builder Pred
  unfolding new_output
  new_builder tables = record {
    tables = tables;
    scans = [];
    relations = [];
    outputs = map new_output tables;
    include_all_blocks = false;
    parent_block_hash = none;
    first_block = none;
    last_block = none;
  }

  -- The new scan is the last one; its index is what the `ScanBuilder` holds.
  unfoldable pub add_scan : String → Builder Pred → Option (Builder Pred)
  unfolding get_index
  add_scan table b = do
    index ← get_index b.tables table
    some (record b {
      scans =
          b.scans
          ++ (record { table = table; predicate = none; relations = []; output = some index } ∷ []);
    })

  unfoldable pub set_projection : String → List String → Builder Pred → Option (Builder Pred)
  unfolding get_index update_at
  set_projection table exp b = do
    index ← get_index b.tables table
    outputs ← update_at (λ o. record o { exp = exp }) index b.outputs
    some (record b { outputs = outputs })

  unfoldable pub with_predicate : ℕ → Pred → Builder Pred → Option (Builder Pred)
  unfolding update_at
  with_predicate scan_idx predicate b = do
    scans ← update_at (λ s. record s { predicate = some predicate }) scan_idx b.scans
    some (record b { scans = scans })

  unfoldable pub with_no_output : ℕ → Builder Pred → Option (Builder Pred)
  unfolding update_at
  with_no_output scan_idx b = do
    scans ← update_at (λ s. record s { output = none }) scan_idx b.scans
    some (record b { scans = scans })

  -- What `join` and the `include_…` methods do with their relation, given the scan's table.
  unfoldable pub attach : ℕ → (String → Option Rel) → Builder Pred → Option (Builder Pred)
  unfolding add_rel update_at
  attach scan_idx make b = do
    scan ← get_elem? b.scans scan_idx
    rel ← make scan.table
    scans ←
        update_at (λ s. record s { relations = s.relations ++ (add_rel rel b.relations).0 ∷ [] })
          scan_idx b.scans
    some (record b { scans = scans; relations = (add_rel rel b.relations).1 })

  unfoldable pub add_join :
      ℕ → String → List String → List String → Builder Pred → Option (Builder Pred)
  unfolding attach
  add_join scan_idx table key scan_key =
      attach scan_idx (λ input. some (join input scan_key table key))

  unfoldable pub include_children : ℕ → Builder Pred → Option (Builder Pred)
  unfolding attach get_table
  include_children scan_idx b =
      attach scan_idx
        (λ table. get_table b.tables table >>= λ t. some (children table t.primary_key)) b

  unfoldable pub include_parents : ℕ → Builder Pred → Option (Builder Pred)
  unfolding attach get_table
  include_parents scan_idx b =
      attach scan_idx
        (λ table. get_table b.tables table >>= λ t. some (parents table t.primary_key)) b

  unfoldable pub include_foreign_children :
      ℕ → String → List String → List String → Builder Pred → Option (Builder Pred)
  unfolding attach
  include_foreign_children scan_idx table key scan_key =
      attach scan_idx (λ input. some (foreign_children input scan_key table key))

  unfoldable pub include_foreign_parents :
      ℕ → String → List String → List String → Builder Pred → Option (Builder Pred)
  unfolding attach
  include_foreign_parents scan_idx table key scan_key =
      attach scan_idx (λ input. some (foreign_parents input scan_key table key))

  unfoldable pub set_include_all_blocks : Bool → Builder Pred → Builder Pred
  set_include_all_blocks all b = record b { include_all_blocks = all }

  unfoldable pub set_parent_block_hash : Option String → Builder Pred → Builder Pred
  set_parent_block_hash hash b = record b { parent_block_hash = hash }

  unfoldable pub set_first_block : Option ℕ → Builder Pred → Builder Pred
  set_first_block block_number b = record b { first_block = block_number }

  unfoldable pub set_last_block : Option ℕ → Builder Pred → Builder Pred
  set_last_block block_number b = record b { last_block = block_number }
