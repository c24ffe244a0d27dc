-- ===== src/Storage/Tx.antt =====
-- crates/storage/src/db/write/tx.rs and dataset_update.rs: the transaction that changes a dataset.
-- A transaction's view is the state of the dataset under its own writes; an operation that fails
-- returns the error alone, since the transaction is dropped with everything staged in it.
pub mod Fork
pub mod Update
use data_lib.Common.{
  ℕ, zero, suc, ◌+◌, true, none, some, [], ◌∷◌, ltb, leb, ◌==◌, str_eq, if◌then◌else◌, Result, ok,
  err, ensure, ◌>>◌, ◌>>=◌, min, max,
}
use data_lib.Storage.Kv.{ColumnFamily}
use data_lib.Storage.Data.{
  Chunk, Tables, DatasetLabel, first_block, last_block, last_block_hash, parent_block_hash, tables,
  bump_version,
}
use data_lib.Storage.Failure.{
  Failure, continuity_violated, gap_below_chunk, overlapping_chunk, invalid_chunk_range,
}
use data_lib.Storage.Chunks.{Entries, Items, list_chunks_reversed}
use data_lib.Storage.Blocks.{Reader}

-- The two kinds of column family in use, and the reader of block tables.
pub record Env : Type 1 where
  pub chunk_cf : ColumnFamily Chunk
  pub marker_cf : ColumnFamily (Unit {0})
  pub read_blocks : Reader

-- One dataset: its label, its part of CF_CHUNKS, and the CF_DIRTY_TABLES and CF_DELETED_TABLES
-- markers.
pub record Dataset (env : Env) : Type 0 where
  pub label : DatasetLabel
  pub chunks : env.chunk_cf.Store
  pub dirty : env.marker_cf.Store
  pub deleted : env.marker_cf.Store

abbrev pub chunk_entries : (env : Env) → Dataset env → Entries
chunk_entries env s = env.chunk_cf.entries s.chunks

module _ (env : Env) where
  -- One point delete, or one write of a marker, for each table of a chunk.
  abbrev pub delete_markers : Tables → env.marker_cf.Store → env.marker_cf.Store
  delete_markers [] m = m
  delete_markers ((name, id) ∷ rest) m = delete_markers rest (env.marker_cf.delete id m)

  abbrev pub put_markers : Tables → env.marker_cf.Store → env.marker_cf.Store
  put_markers [] m = m
  put_markers ((name, id) ∷ rest) m = put_markers rest (env.marker_cf.put id tt m)

  unfoldable pub write_chunk : Chunk → Dataset env → Dataset env
  write_chunk chunk s = record s {
    chunks = env.chunk_cf.put (last_block chunk) chunk s.chunks;
    dirty = delete_markers (tables chunk) s.dirty;
  }

  unfoldable pub delete_chunk : Chunk → Dataset env → Dataset env
  delete_chunk chunk s = record s {
    chunks = env.chunk_cf.delete (last_block chunk) s.chunks;
    deleted = put_markers (tables chunk) s.deleted;
  }

  -- `Database::delete_tables`: a transaction that hands the tables to the purge.
  unfoldable pub delete_tables : Tables → Dataset env → Dataset env
  delete_tables ids s = record s { deleted = put_markers ids s.deleted }

  -- The loop of `insert_fork` over the stored chunks, the last one first.
  unfoldable pub drop_replaced : Chunk → Items → Dataset env → Result Failure (Dataset env)
  unfolding delete_chunk
  drop_replaced chunk [] s = ok s
  drop_replaced chunk (err e ∷ rest) s = err e
  drop_replaced chunk (ok head ∷ rest) s =
      let next = drop_replaced chunk rest (delete_chunk head s) in
      if leb (first_block chunk) (first_block head)
      then next
      else if (last_block head + 1) == first_block chunk
      then (do
        ensure (str_eq (last_block_hash head) (parent_block_hash chunk)) continuity_violated
        ok s)
      else if ltb (last_block head) (first_block chunk)
      then err gap_below_chunk
      else err overlapping_chunk

  unfoldable pub insert_fork : Chunk → Dataset env → Result Failure (Dataset env)
  unfolding drop_replaced write_chunk
  insert_fork chunk s = do
    s' ← drop_replaced chunk (list_chunks_reversed 0 none (chunk_entries env s)) s
    ok (write_chunk chunk s')

  -- A stored neighbour of the new chunk is disjoint from it, and linked to it where they touch.
  unfoldable pub check_neighbor : Chunk → Chunk → Result Failure (Unit {0})
  check_neighbor chunk n = do
    ensure (ltb (min (last_block n) (last_block chunk)) (max (first_block n) (first_block chunk)))
        overlapping_chunk
    ensure
        (if (last_block chunk + 1) == first_block n
          then str_eq (last_block_hash chunk) (parent_block_hash n)
          else true)
        continuity_violated
    ensure
        (if (last_block n + 1) == first_block chunk
          then str_eq (last_block_hash n) (parent_block_hash chunk)
          else true)
        continuity_violated

  -- `.take(2)` of the neighbours at or below the new chunk.
  unfoldable pub check_neighbors : ℕ → Chunk → Items → Result Failure (Unit {0})
  unfolding check_neighbor
  check_neighbors zero chunk items = ok tt
  check_neighbors (suc n) chunk [] = ok tt
  check_neighbors (suc n) chunk (err e ∷ rest) = err e
  check_neighbors (suc n) chunk (ok c ∷ rest) = do
    check_neighbor chunk c
    check_neighbors n chunk rest

  unfoldable pub validate_chunk_insertion : Chunk → Dataset env → Result Failure (Unit {0})
  unfolding check_neighbors list_chunks_reversed
  validate_chunk_insertion chunk s = do
    ensure (leb (first_block chunk) (last_block chunk)) invalid_chunk_range
    check_neighbors 2 chunk
        (list_chunks_reversed 0 (some (last_block chunk + 1)) (chunk_entries env s))

  unfoldable pub insert_chunk : Chunk → Dataset env → Result Failure (Dataset env)
  unfolding validate_chunk_insertion write_chunk
  insert_chunk chunk s = do validate_chunk_insertion chunk s; ok (write_chunk chunk s)

  -- `Database::update_dataset`: the changes of `cb` and a new version, or nothing.
  unfoldable pub update_dataset :
      {R : Type 0}
      → (Dataset env → Result Failure (R × Dataset env))
      → Dataset env
      → Result Failure (R × Dataset env)
  unfolding bump_version
  update_dataset cb s = do (r, s') ← cb s; ok (r, record s' { label = bump_version s'.label })
