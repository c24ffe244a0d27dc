-- ===== src/Query/Plan/Built.antt =====
-- The plans that `PlanBuilder` and `ScanBuilder` of plan/plan.rs make.
use data_lib.Query.Table.{Table, add_table}
use data_lib.Query.Plan.{
  Builder, new_builder, add_scan, set_projection, with_predicate, add_join, include_children,
  include_parents, include_foreign_children, include_foreign_parents, with_no_output,
  set_include_all_blocks, set_parent_block_hash, set_first_block, set_last_block,
}
use data_lib.Common.{ℕ, ◌≡◌, String, Bool, Option, some, List, []}

-- The table sets that `add_table` makes.
pub data IsTableSet : List Table → Type 0 where
  empty : IsTableSet []
  added :
      {tables tables' : List Table}
      → (name : String) → (pk : List String) → IsTableSet tables
      → add_table name pk tables ≡ some tables'
      → IsTableSet tables'

-- The builders that the methods make; a method that panics makes none. A `ScanBuilder` is given by the
-- index of its scan.
pub data IsBuilt {Pred : Type 0} : Builder Pred → Type 0 where
  start : {tables : List Table} → IsTableSet tables → IsBuilt (new_builder tables)
  scanned :
      {b b' : Builder Pred} → (table : String) → IsBuilt b → add_scan table b ≡ some b' → IsBuilt b'
  projected :
      {b b' : Builder Pred}
      → (table : String) → (exp : List String) → IsBuilt b
      → set_projection table exp b ≡ some b'
      → IsBuilt b'
  restricted :
      {b b' : Builder Pred}
      → (scan_idx : ℕ) → (predicate : Pred) → IsBuilt b
      → with_predicate scan_idx predicate b ≡ some b'
      → IsBuilt b'
  joined :
      {b b' : Builder Pred}
      → (scan_idx : ℕ) → (table : String) → (key scan_key : List String) → IsBuilt b
      → add_join scan_idx table key scan_key b ≡ some b'
      → IsBuilt b'
  with_children :
      {b b' : Builder Pred}
      → (scan_idx : ℕ) → IsBuilt b
      → include_children scan_idx b ≡ some b'
      → IsBuilt b'
  with_parents :
      {b b' : Builder Pred}
      → (scan_idx : ℕ) → IsBuilt b
      → include_parents scan_idx b ≡ some b'
      → IsBuilt b'
  with_foreign_children :
      {b b' : Builder Pred}
      → (scan_idx : ℕ) → (table : String) → (key scan_key : List String) → IsBuilt b
      → include_foreign_children scan_idx table key scan_key b ≡ some b'
      → IsBuilt b'
  with_foreign_parents :
      {b b' : Builder Pred}
      → (scan_idx : ℕ) → (table : String) → (key scan_key : List String) → IsBuilt b
      → include_foreign_parents scan_idx table key scan_key b ≡ some b'
      → IsBuilt b'
  without_output :
      {b b' : Builder Pred}
      → (scan_idx : ℕ) → IsBuilt b
      → with_no_output scan_idx b ≡ some b'
      → IsBuilt b'
  including_all_blocks :
      {b : Builder Pred} → (all : Bool) → IsBuilt b → IsBuilt (set_include_all_blocks all b)
  with_parent_block_hash :
      {b : Builder Pred}
      → (hash : Option String) → IsBuilt b
      → IsBuilt (set_parent_block_hash hash b)
  with_first_block :
      {b : Builder Pred}
      → (block_number : Option ℕ) → IsBuilt b
      → IsBuilt (set_first_block block_number b)
  with_last_block :
      {b : Builder Pred}
      → (block_number : Option ℕ) → IsBuilt b
      → IsBuilt (set_last_block block_number b)
