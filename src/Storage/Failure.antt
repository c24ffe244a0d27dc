-- ===== src/Storage/Failure.antt =====
-- `anyhow::Error` as the storage and hotblocks crates raise it: one constructor for each message of
-- the modelled code. The interpolated values of a message are left out; the reason of an
-- `UnapplicableFork` (crates/hotblocks/src/errors.rs) is kept, since callers bucket on it.
pub data ForkReason : Type 0 where
  hints_below_finalized_head hint_conflicts_with_finalized_head below_retained_window : ForkReason
  stale_rollback_boundary drops_finalized_block rewrites_finalized_history : ForkReason
  finality_hash_changed finality_contradicts_chunk finality_evicts_finalized_block : ForkReason
  finality_contradicts_stored_block : ForkReason

pub data Failure : Type 0 where
  -- read/chunk.rs, `validate_chunk`
  unexpected_last_block invalid_chunk_range : Failure
  -- write/tx.rs
  continuity_violated gap_below_chunk overlapping_chunk : Failure
  no_parent_hash_information no_blocks_table : Failure
  -- read/blocks_table.rs
  block_not_found : Failure
  -- dataset_controller/write_controller.rs
  unapplicable_fork : ForkReason → Failure
  no_previous_blocks unordered_previous_blocks retention_gap retention_hash_mismatch : Failure
  empty_dataset multiple_processes : Failure
  -- dataset_controller/ingest_generic.rs; a channel whose other end is gone
  chain_continuity_violated data_availability_changed channel_closed : Failure
  -- an `expect`, `unwrap` or `assert!` that does not hold
  panicked : Failure
