-- ===== src/Tests/WriterTests.antt =====
-- The theorems on the writer at the example chain.
use data_lib.Common.{◌≡◌, refl, true, false, none, some, [], ◌∷◌, ◌++◌, arith, ok, err}
use data_lib.Tests
use data_lib.Storage.Data
use data_lib.Tests.{env, low, high, stored, writer, writer-IsSynced}
use data_lib.Hotblocks.Finality.{
  applied, last_stored, get_chunk_head, resolve_in_history, resolve_at_height, in_batch, precheck,
  head_after, resolve_finality,
}
use data_lib.Hotblocks.Finality.Sound.{resolve_finality-IsApplied, IsApplied}
use data_lib.Hotblocks.Writer.Commit.{
  replaces_first, publish_chunk, finalized_after, refuse_divergence, publish_finality,
  guard_finalized, starts_inside, commit_decision, window_start, is_stored_head, admit,
  commit_finality, commit_chunk, finalize, new_chunk,
}
use data_lib.Storage.Data.{
  bump_version, parent_block_hash, Chunk, tables, last_block_hash, last_block, first_block,
}
use data_lib.Storage.Tx.{
  insert_chunk, validate_chunk_insertion, check_neighbors, check_neighbor, write_chunk,
  drop_replaced, delete_tables, delete_chunk, insert_fork, update_dataset, chunk_entries,
}
use data_lib.Hotblocks.Writer.Invariant.{IsSynced}
use data_lib.Hotblocks.Writer.NewChunk.{new_chunk-IsSynced}
use data_lib.Storage.Blocks.{
  validate_parent_block_hash, find_block_hash, next_item, find_table, block_rows, find_block_row,
  find_block_hash_in_chunk, find_stored_block_hash,
}
use data_lib.Storage.Chunks.{
  validate_chunk, up_to, starts_by, seek, next_chunks, list_chunks_reversed, list_chunks,
}
use data_lib.Hotblocks.Writer.{
  new_controller, set_finalized_head, abandon_tables, set_head, publish, starts_at, WriteController,
}
use data_lib.Hotblocks.Writer.Finalize.{finalize-Finalized, Finalized}
use data_lib.Hotblocks.Writer.Retain.{
  finalized_from, apply_status, after_gap, keep_from, unfinalize, check_parent, retain_chunks,
  retain_with,
}
use data_lib.Hotblocks.Writer.Retain.Synced.{retain_with-Retained, Retained}
use data_lib.Storage.Tx.Fork.{starting_below}
use data_lib.Hotblocks.Writer.Progress.{new_chunk_commits, Follows}
use data_lib.Storage.Failure.{stale_rollback_boundary, unapplicable_fork}
use data_lib.Storage.Prefix.{
  visit_all, visit, verdict, seek_stored, read_block_hashes, compare_stored, collect,
  validate_finalized_prefix,
}
use data_lib.Hotblocks.Writer.History.{new_chunk-Reproduces, Reproduces}
use data_lib.Hotblocks.Writer.Rebuilt.{new_controller-IsSynced, IsAnchored}

-- A report of block 4 while block 3 is final.
resolves :
    resolve_finality env.read_blocks
      (chunk_entries env stored)
      stored.label.finalized_head
      none
      1
      (Tests.block 4 "a4")
    ≡ ok (applied (Tests.block 4 "a4"))
unfolding resolve_finality head_after precheck in_batch resolve_at_height resolve_in_history
    get_chunk_head find_stored_block_hash find_block_hash_in_chunk last_stored last_block
    last_block_hash first_block find_block_row block_rows find_table tables list_chunks
    list_chunks_reversed next_item next_chunks
resolves = refl

resolve_finality-IsApplied_example :
    IsApplied env.read_blocks
      (chunk_entries env stored)
      (some (Tests.block 3 "a3"))
      none
      1
      (Tests.block 4 "a4")
      (Tests.block 4 "a4")
resolve_finality-IsApplied_example =
    resolve_finality-IsApplied env.read_blocks (chunk_entries env stored)
      (some (Tests.block 3 "a3")) none 1 (Tests.block 4 "a4") (Tests.block 4 "a4") resolves

new_chunk-IsSynced_example : IsSynced (new_chunk none Tests.fork writer).1
unfolding first_block last_block
new_chunk-IsSynced_example = new_chunk-IsSynced none Tests.fork writer (omega arith) writer-IsSynced

commits : (new_chunk none Tests.fork writer).0 ≡ ok tt
unfolding new_chunk update_dataset commit_chunk admit window_start next_item list_chunks last_block
    first_block starts_inside guard_finalized validate_finalized_prefix tables refuse_divergence
    finalized_after insert_fork list_chunks_reversed last_block_hash get_chunk_head publish_chunk
    replaces_first abandon_tables publish set_finalized_head set_head block_rows find_table
    next_chunks seek starts_by up_to validate_chunk bump_version parent_block_hash
    Data.set_finalized_head collect compare_stored read_block_hashes seek_stored verdict visit
    visit_all delete_chunk delete_tables drop_replaced write_chunk check_neighbor check_neighbors
    validate_chunk_insertion insert_chunk
commits = refl

new_chunk_commits_example :
    (chunk_entries env (new_chunk none Tests.fork writer).1.db
      ≡ starting_below 3 (chunk_entries env stored) ++ (5, Tests.fork) ∷ [])
    × ((new_chunk none Tests.fork writer).1.head ≡ some (Tests.block 5 "b5"))
    × Follows (some (Tests.block 3 "a3")) (new_chunk none Tests.fork writer).1.finalized_head
unfolding first_block last_block last_block_hash get_chunk_head
new_chunk_commits_example =
    new_chunk_commits none Tests.fork writer (omega arith) writer-IsSynced commits

-- A chunk that starts inside a stored one.
abbrev misplaced : Chunk
misplaced = Tests.chunk_of 4 5 "c5" "a3" 3

refuses : (new_chunk none misplaced writer).0 ≡ err (unapplicable_fork stale_rollback_boundary)
unfolding new_chunk update_dataset commit_chunk admit window_start next_item list_chunks last_block
    first_block starts_inside next_chunks seek starts_by up_to validate_chunk
refuses = refl

abbrev finalized : WriteController env
finalized = record writer {
  db = record stored {
    label = record { kind = "evm"; version = 8; finalized_head = some (Tests.block 4 "a4") };
  };
  finalized_head = some (Tests.block 4 "a4");
  finalized_channel = some (Tests.block 4 "a4");
}

finalizes : finalize (Tests.block 4 "a4") writer ≡ ok finalized
unfolding finalize update_dataset commit_finality last_stored list_chunks_reversed is_stored_head
    resolve_finality head_after precheck in_batch resolve_at_height resolve_in_history
    find_stored_block_hash find_block_hash_in_chunk find_block_hash list_chunks next_item block_rows
    find_table commit_decision publish_finality set_finalized_head publish bump_version
    Data.set_finalized_head first_block last_block last_block_hash get_chunk_head tables
finalizes = refl

finalize-Finalized_example : Finalized writer finalized
finalize-Finalized_example =
    finalize-Finalized (Tests.block 4 "a4") writer finalized writer-IsSynced finalizes

abbrev trimmed : WriteController env
trimmed = record writer {
  db = record stored {
    label = record { kind = "evm"; version = 8; finalized_head = some (Tests.block 3 "a3") };
    chunks = (4, high) ∷ [];
    deleted = (1, tt) ∷ [];
  };
  start_block = 3;
  parent_hash = some "a2";
  first_chunk_head = some (Tests.block 4 "a4");
}

retains : retain_with false 3 (some "a2") writer ≡ ok (true, trimmed)
unfolding retain_with starts_at update_dataset retain_chunks list_chunks first_block last_block
    last_block_hash get_chunk_head parent_block_hash check_parent unfinalize keep_from after_gap
    apply_status finalized_from set_head set_finalized_head publish bump_version
    Data.set_finalized_head delete_chunk tables validate_parent_block_hash last_stored next_item
    list_chunks_reversed
retains = refl

retain_with-Retained_example : Retained false 3 (some "a2") writer true trimmed
retain_with-Retained_example =
    retain_with-Retained false 3 (some "a2") writer true trimmed writer-IsSynced retains

new_chunk-Reproduces_example : Reproduces env.read_blocks (chunk_entries env stored) Tests.fork 3
unfolding first_block last_block
new_chunk-Reproduces_example =
    new_chunk-Reproduces none Tests.fork writer (Tests.block 3 "a3") (omega arith) writer-IsSynced
      commits refl (omega arith)

-- A restart, with nothing in the channels.
new_controller-IsSynced_example :
    (c : WriteController env) × (new_controller env stored none none ≡ ok c)
    × IsSynced c
    × IsAnchored c (some low)
unfolding last_block last_block_hash get_chunk_head
new_controller-IsSynced_example =
    new_controller-IsSynced stored none none Tests.stored-IsTiled (omega arith)
