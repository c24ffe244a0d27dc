-- ===== src/Tests.antt =====
-- A small chain for the examples: blocks 1 to 4 in two chunks, and a fork that replaces block 3 on.
pub mod StorageTests
pub mod WriterTests
pub mod RollbackTests
pub mod RangeTests
pub mod IngestTests
pub mod ChainTests
pub mod DataSourceTests
pub mod RetryTests
pub mod SidTests
pub mod ArchiveTests
pub mod QueryTests
pub mod WeightTests
pub mod BlockWriterTests
use data_lib.Common.{
  ℕ, zero, suc, ◌+◌, ◌-◌, ◌≤◌, ◌<◌, ◌≡◌, ◌≢◌, ◌↔◌, ◌⊎◌, inl, inr, refl, sym, ap, subst, ◌∙◌, String,
  Bool, true, false, not, ◌&&◌, ◌||◌, Option, none, some, List, [], ◌∷◌, ◌++◌, map, reverse, arith,
  ltb, leb, ◌==◌, str_eq, eq_iff, if◌then◌else◌, Result, ok, err, ensure, ◌>>=◌, ◌>>◌, >>=-eq-ok,
  All, All-append, Bool-cases, Option-cases, min, max, length, get_elem?, append_assoc, append-nil,
}
use data_lib.Hotblocks.Finality.{get_chunk_head}
use data_lib.Hotblocks.Writer.{WriteController}
use data_lib.Storage.Blocks.{Reader, BlockRow}
use data_lib.Storage.Data.{
  parent_block_hash, last_block_hash, v1, last_block, first_block, Chunk, BlockRef,
}
use data_lib.Storage.Tx.{chunk_entries, Env, Dataset}
use data_lib.Storage.Kv.{list_cf}
use data_lib.Hotblocks.Writer.Invariant.{IsSynced}
use data_lib.Storage.Chunks.Tiling.{IsTiled}

abbrev pub row : ℕ → String → String → BlockRow
row n h p = record { number = n; hash = h; parent_hash = p }

abbrev pub block_tables : Reader
block_tables id =
    if id == 1
    then row 1 "a1" "a0" ∷ row 2 "a2" "a1" ∷ []
    else if id == 2
    then row 3 "a3" "a2" ∷ row 4 "a4" "a3" ∷ []
    else if id == 3
    then row 3 "a3" "a2" ∷ row 4 "b4" "a3" ∷ row 5 "b5" "b4" ∷ []
    else []

abbrev pub env : Env
env = record {
  chunk_cf = list_cf Chunk;
  marker_cf = list_cf (Unit {0});
  read_blocks = block_tables;
}

abbrev pub chunk_of : ℕ → ℕ → String → String → ℕ → Chunk
chunk_of first last hash parent table = v1 first last hash parent none none (("blocks", table) ∷ [])

abbrev pub low : Chunk
low = chunk_of 1 2 "a2" "a0" 1

abbrev pub high : Chunk
high = chunk_of 3 4 "a4" "a2" 2

-- Carries block 3 as stored, and other blocks from 4 on.
abbrev pub fork : Chunk
fork = chunk_of 3 5 "b5" "a2" 3

abbrev pub block : ℕ → String → BlockRef
block n h = record { number = n; hash = h }

abbrev pub stored : Dataset env
stored = record {
  label = record { kind = "evm"; version = 7; finalized_head = some (block 3 "a3") };
  chunks = (2, low) ∷ (4, high) ∷ [];
  dirty = (3, tt) ∷ [];
  deleted = [];
}

abbrev pub writer : WriteController env
writer = record {
  db = stored;
  start_block = 1;
  parent_hash = some "a0";
  first_chunk_head = some (block 2 "a2");
  head = some (block 4 "a4");
  finalized_head = some (block 3 "a3");
  head_channel = some (block 4 "a4");
  finalized_channel = some (block 3 "a3");
}

pub stored-IsTiled : IsTiled (chunk_entries env stored)
unfolding first_block last_block last_block_hash parent_block_hash
stored-IsTiled = ((refl, omega arith), (refl, refl), ((refl, omega arith), tt, tt))

pub writer-IsSynced : IsSynced writer
unfolding get_chunk_head last_block last_block_hash
writer-IsSynced = record {
  tiled = stored-IsTiled;
  head_stored = refl;
  first_stored = refl;
  finalized_stored = refl;
  head_published = refl;
  finalized_published = refl;
  ordered = omega arith;
}
