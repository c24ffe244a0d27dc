-- ===== src/Hotblocks/Writer.antt =====
-- `WriteController` of crates/hotblocks/src/dataset_controller/write_controller.rs: the single writer
-- of a dataset. It keeps a working copy of the committed heads and publishes them after each commit.
-- A method that fails still returns the controller, since what it changed stays changed.
pub mod Retain
pub mod Commit
pub mod Rollback
pub mod Invariant
pub mod Admission
pub mod NewChunk
pub mod Rebuilt
pub mod Progress
pub mod Finalize
pub mod History
pub mod Messages
use data_lib.Common.{
  ℕ, ◌+◌, ◌-◌, ◌≡◌, refl, String, Bool, true, false, Option, none, some, List, [], ◌∷◌, ◌&&◌, ltb,
  leb, ◌==◌, str_eq, if◌then◌else◌, Result, ok, err, ◌>>=◌, arith, eq_iff,
}
use data_lib.Storage.Data.{Chunk, BlockRef, ref_eq, first_block, parent_block_hash, tables}
use data_lib.Storage.Failure.{Failure}
use data_lib.Storage.Chunks.{list_chunks, list_chunks_reversed}
use data_lib.Storage.Blocks.{next_item}
use data_lib.Storage.Tx.{Env, Dataset, chunk_entries, delete_tables}
use data_lib.Hotblocks.Finality.{get_chunk_head, last_stored}

-- `head_channel` and `finalized_channel` are the values that subscribers see.
pub record WriteController (env : Env) : Type 0 where
  pub db : Dataset env
  pub start_block : ℕ
  pub parent_hash : Option String
  pub first_chunk_head : Option BlockRef
  pub head : Option BlockRef
  pub finalized_head : Option BlockRef
  pub head_channel : Option BlockRef
  pub finalized_channel : Option BlockRef

abbrev pub option_ref_eq : Option BlockRef → Option BlockRef → Bool
option_ref_eq none none = true
option_ref_eq (some a) (some b) = ref_eq a b
option_ref_eq _ _ = false

-- `send_if_modified`: the value in the channel afterwards, and whether subscribers are woken.
unfoldable pub publish : Option BlockRef → Option BlockRef → Option BlockRef × Bool
publish current value = if option_ref_eq current value then (current, false) else (value, true)

abbrev pub option_hash_eq : Option String → Option String → Bool
option_hash_eq none none = true
option_hash_eq (some a) (some b) = str_eq a b
option_hash_eq _ _ = false

module _ {env : Env} where
  unfoldable pub set_head : Option BlockRef → WriteController env → WriteController env
  unfolding publish
  set_head head c = record c { head = head; head_channel = (publish c.head_channel head).0 }

  unfoldable pub set_finalized_head : Option BlockRef → WriteController env → WriteController env
  unfolding publish
  set_finalized_head head c = record c {
    finalized_head = head;
    finalized_channel = (publish c.finalized_channel head).0;
  }

  unfoldable pub clear_heads : WriteController env → WriteController env
  unfolding set_head set_finalized_head
  clear_heads c = record (set_finalized_head none (set_head none c)) { first_chunk_head = none }

  -- The next block that extends the chain.
  unfoldable pub next_block : WriteController env → ℕ
  next_block c = elim c.head [ none ↦ c.start_block | some h ↦ h.number + 1 ]

  unfoldable pub head_hash : WriteController env → Option String
  head_hash c = elim c.head [ none ↦ c.parent_hash | some h ↦ some h.hash ]

  unfoldable pub starts_at : ℕ → Option String → WriteController env → Bool
  starts_at block_number hash c =
      (c.start_block == block_number) && option_hash_eq c.parent_hash hash

  -- `abandon_tables`: the tables of a refused chunk are handed to the purge. A failure to do so, which
  -- the source only logs, is left out.
  unfoldable pub abandon_tables : Chunk → WriteController env → WriteController env
  abandon_tables chunk c = record c { db = delete_tables env (tables chunk) c.db }

abbrev pub option_map_head : Option Chunk → Option BlockRef
option_map_head none = none
option_map_head (some chunk) = some (get_chunk_head chunk)

-- `WriteController::new`, over a dataset that exists and the channels of an earlier writer.
unfoldable pub new_controller :
    (env : Env)
    → Dataset env
    → Option BlockRef
    → Option BlockRef
    → Result Failure (WriteController env)
unfolding set_head set_finalized_head
new_controller env db head_channel finalized_channel = do
  first_chunk ← next_item (list_chunks 0 none (chunk_entries env db))
  last_chunk ← last_stored (chunk_entries env db)
  let head = option_map_head last_chunk
  let finalized_head = db.label.finalized_head
  ok (record {
    db = db;
    start_block = elim first_chunk [ none ↦ 0 | some chunk ↦ first_block chunk ];
    parent_hash = elim first_chunk [ none ↦ none | some chunk ↦ some (parent_block_hash chunk) ];
    first_chunk_head = option_map_head first_chunk;
    head = head;
    finalized_head = finalized_head;
    head_channel = (publish head_channel head).0;
    finalized_channel = (publish finalized_channel finalized_head).0;
  })

pub publish_lem : (current value : Option BlockRef) → (publish current value).0 ≡ value
unfolding publish
publish_lem none none = refl
publish_lem none (some b) = refl
publish_lem (some a) none = refl
publish_lem (some a) (some b) = ground (arith, eq_iff a.hash b.hash)
