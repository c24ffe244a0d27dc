-- ===== src/Tests/StorageTests.antt =====
-- The theorems on storage at the example chain.
use data_lib.Common.{◌≡◌, refl, none, [], ◌∷◌, arith, ok}
use data_lib.Tests
use data_lib.Tests.{env, low, high, stored, stored-IsTiled}
use data_lib.Storage.Data.{parent_block_hash, tables, last_block_hash, last_block, first_block}
use data_lib.Storage.Tx.{chunk_entries, delete_chunk, insert_fork, Dataset}
use data_lib.Storage.Prefix.{validate_finalized_prefix, read_block_hashes, collect}
use data_lib.Storage.Tx.Fork.{insert_fork_succeeds, insert_fork_replaces}
use data_lib.Storage.Chunks.{list_chunks_reversed, list_chunks}
use data_lib.Storage.Blocks.{block_rows}
use data_lib.Storage.Prefix.Exact.{validate_finalized_prefix_exact, history}

abbrev forked : Dataset env
forked = record stored {
  chunks = (2, low) ∷ (5, Tests.fork) ∷ [];
  dirty = [];
  deleted = (2, tt) ∷ [];
}

forks : insert_fork env Tests.fork stored ≡ ok forked
unfolding insert_fork delete_chunk first_block last_block last_block_hash parent_block_hash tables
    list_chunks_reversed
forks = refl

insert_fork_replaces_example : chunk_entries env forked ≡ (2, low) ∷ (5, Tests.fork) ∷ []
unfolding first_block last_block
insert_fork_replaces_example =
    (insert_fork_replaces env Tests.fork stored forked stored-IsTiled (omega arith) forks).0

insert_fork_succeeds_example : (s' : Dataset env) × (insert_fork env Tests.fork stored ≡ ok s')
unfolding first_block last_block last_block_hash parent_block_hash
insert_fork_succeeds_example =
    (insert_fork_succeeds env Tests.fork stored stored-IsTiled).0 (refl, refl)

-- The fork reproduces stored history up to block 3.
validate_finalized_prefix_exact_example :
    validate_finalized_prefix env.read_blocks (chunk_entries env stored) Tests.fork 3 ≡ ok none
unfolding first_block last_block tables collect list_chunks block_rows history read_block_hashes
validate_finalized_prefix_exact_example =
    (validate_finalized_prefix_exact env.read_blocks (chunk_entries env stored) Tests.fork 3
        (high ∷ []) (env.read_blocks 3) refl refl).1
      (Tests.row 3 "a3" "a2" ∷ [], refl, refl)
