-- ===== src/Tests/RollbackTests.antt =====
-- The theorems on rollbacks and messages at the example chain.
use data_lib.Common.{◌≡◌, refl, true, none, some, List, [], ◌∷◌, arith, ok}
use data_lib.Tests
use data_lib.Tests.{env, low, high, stored, writer, writer-IsSynced}
use data_lib.Hotblocks.Writer.Rollback.{
  reach, peek_below, skip_above, search_boundary, resume, ascending, from_number, hints_from,
  Rollback, compute_rollback,
}
use data_lib.Hotblocks.Writer.Rollback.Lands.{Lands, compute_rollback-Lands}
use data_lib.Hotblocks.Writer.Messages.{NewChunk, IngestMessage, chunk, finalized, fork, handle_all}
use data_lib.Hotblocks.Writer.Messages.Keeps.{handle_all-IsSynced}
use data_lib.Hotblocks.Writer.Invariant.{IsSynced}
use data_lib.Storage.Data.{last_block_hash, last_block, first_block, BlockRef}
use data_lib.Storage.Chunks.{list_chunks_reversed}

-- The source knows block 3 as stored and another block 4.
abbrev hints : List BlockRef
hints = Tests.block 3 "a3" ∷ Tests.block 4 "b4" ∷ []

abbrev back_to_three : Rollback
back_to_three = record {
  resume_from = 3;
  expected_parent_hash = some "a2";
  reach_at_least = some 3;
}

rolls_back : compute_rollback hints writer ≡ ok back_to_three
unfolding compute_rollback hints_from from_number ascending resume search_boundary skip_above
    peek_below reach list_chunks_reversed first_block last_block last_block_hash
rolls_back = refl

compute_rollback-Lands_example : Lands writer back_to_three
compute_rollback-Lands_example =
    compute_rollback-Lands writer Tests.stored-IsTiled hints back_to_three rolls_back

abbrev replay : NewChunk
replay = record {
  finalized_head = some (Tests.block 4 "b4");
  parent_block_hash = "a2";
  first_block = 3;
  last_block = 5;
  last_block_hash = "b5";
  first_block_time = none;
  last_block_time = none;
  tables = ok (("blocks", 3) ∷ []);
}

abbrev epoch : List IngestMessage
epoch = fork hints true ∷ chunk replay ∷ finalized (Tests.block 5 "b5") ∷ []

handle_all-IsSynced_example : IsSynced (handle_all epoch (some 3) writer)
handle_all-IsSynced_example =
    handle_all-IsSynced epoch (some 3) writer (tt, (omega arith, (tt, tt))) writer-IsSynced
