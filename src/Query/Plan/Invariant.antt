-- ===== src/Query/Plan/Invariant.antt =====
-- What holds of every plan that the methods of plan/plan.rs make.
use data_lib.Query.Panics.{◌>>=◌, >>=-eq-some}
use data_lib.Query.Table.{get_table}
use data_lib.Query.Rel.{join, foreign_children, foreign_parents, children, parents, input_table}
use data_lib.Query.Plan.{
  Builder, add_join, include_children, include_parents, include_foreign_children,
  include_foreign_parents, set_include_all_blocks, set_parent_block_hash, set_first_block,
  set_last_block,
}
use data_lib.Query.Plan.Consistent.{IsConsistent}
use data_lib.Common.{◌≡◌, sym, ap, some}
use data_lib.Query.Plan.Built.{
  with_foreign_parents, with_foreign_children, with_parents, with_children, joined, restricted,
  projected, scanned, IsBuilt, start, without_output, including_all_blocks, with_parent_block_hash,
  with_first_block, with_last_block,
}
use data_lib.Query.Plan.Tables.{new_builder-IsConsistent}
use data_lib.Query.Plan.Attach.{
  attach-IsConsistent, with_predicate-IsConsistent, with_no_output-IsConsistent,
  add_scan-IsConsistent,
}
use data_lib.Query.Plan.Projection.{set_projection-IsConsistent}

module _ {Pred : Type 0} where
  pub IsBuilt-IsConsistent : (b : Builder Pred) → IsBuilt b → IsConsistent b
  unfolding add_join include_children include_parents include_foreign_children
      include_foreign_parents input_table set_include_all_blocks set_parent_block_hash
      set_first_block set_last_block
  IsBuilt-IsConsistent b (start tables) = new_builder-IsConsistent _ tables
  IsBuilt-IsConsistent b' (scanned {b = b} table h e) =
      add_scan-IsConsistent b b' table (IsBuilt-IsConsistent b h) e
  IsBuilt-IsConsistent b' (projected {b = b} table exp h e) =
      set_projection-IsConsistent b b' table exp (IsBuilt-IsConsistent b h) e
  IsBuilt-IsConsistent b' (restricted {b = b} scan_idx predicate h e) =
      with_predicate-IsConsistent b b' scan_idx predicate (IsBuilt-IsConsistent b h) e
  IsBuilt-IsConsistent b' (joined {b = b} scan_idx table key scan_key h e) =
      attach-IsConsistent b b' scan_idx (λ t. some (join t scan_key table key))
        (IsBuilt-IsConsistent b h)
        (λ t rel m. let same : join t scan_key table key ≡ rel = cc in sym (ap input_table same)) e
  IsBuilt-IsConsistent b' (with_children {b = b} scan_idx h e) =
      attach-IsConsistent b b' scan_idx
        (λ t. get_table b.tables t >>= λ d. some (children t d.primary_key))
        (IsBuilt-IsConsistent b h)
        (λ t rel m.
          let found = >>=-eq-some (get_table b.tables t) _ m in
          let same : children t found.0.primary_key ≡ rel = cc in sym (ap input_table same))
        e
  IsBuilt-IsConsistent b' (with_parents {b = b} scan_idx h e) =
      attach-IsConsistent b b' scan_idx
        (λ t. get_table b.tables t >>= λ d. some (parents t d.primary_key))
        (IsBuilt-IsConsistent b h)
        (λ t rel m.
          let found = >>=-eq-some (get_table b.tables t) _ m in
          let same : parents t found.0.primary_key ≡ rel = cc in sym (ap input_table same))
        e
  IsBuilt-IsConsistent b' (with_foreign_children {b = b} scan_idx table key scan_key h e) =
      attach-IsConsistent b b' scan_idx (λ t. some (foreign_children t scan_key table key))
        (IsBuilt-IsConsistent b h)
        (λ t rel m.
          let same : foreign_children t scan_key table key ≡ rel = cc in sym (ap input_table same))
        e
  IsBuilt-IsConsistent b' (with_foreign_parents {b = b} scan_idx table key scan_key h e) =
      attach-IsConsistent b b' scan_idx (λ t. some (foreign_parents t scan_key table key))
        (IsBuilt-IsConsistent b h)
        (λ t rel m.
          let same : foreign_parents t scan_key table key ≡ rel = cc in sym (ap input_table same))
        e
  IsBuilt-IsConsistent b' (without_output {b = b} scan_idx h e) =
      with_no_output-IsConsistent b b' scan_idx (IsBuilt-IsConsistent b h) e
  IsBuilt-IsConsistent b' (including_all_blocks {b = b} all h) =
      let w = IsBuilt-IsConsistent b h in
      record { same_tables = w.same_tables; distinct = w.distinct; scans = w.scans }
  IsBuilt-IsConsistent b' (with_parent_block_hash {b = b} hash h) =
      let w = IsBuilt-IsConsistent b h in
      record { same_tables = w.same_tables; distinct = w.distinct; scans = w.scans }
  IsBuilt-IsConsistent b' (with_first_block {b = b} block_number h) =
      let w = IsBuilt-IsConsistent b h in
      record { same_tables = w.same_tables; distinct = w.distinct; scans = w.scans }
  IsBuilt-IsConsistent b' (with_last_block {b = b} block_number h) =
      let w = IsBuilt-IsConsistent b h in
      record { same_tables = w.same_tables; distinct = w.distinct; scans = w.scans }
