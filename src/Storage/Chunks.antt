-- ===== src/Storage/Chunks.antt =====
-- crates/storage/src/db/read/chunk.rs: iteration over a dataset's chunks. The chunk column family is
-- keyed by the dataset's id and the chunk's last block; within one dataset the key is the last block.
pub mod Tiling
use data_lib.Common.{
  ℕ, Bool, true, Option, none, some, List, [], ◌∷◌, reverse, ◌&&◌, ltb, leb, ◌==◌, if◌then◌else◌,
  Result, ok, err, ensure, ◌>>◌, ◌>>=◌,
}
use data_lib.Storage.Data.{Chunk, first_block, last_block}
use data_lib.Storage.Failure.{Failure, unexpected_last_block, invalid_chunk_range}

-- The entries of the column family in key order.
abbrev pub Entries : Type 0
Entries = List (ℕ × Chunk)

abbrev pub Items : Type 0
Items = List (Result Failure Chunk)

unfoldable pub validate_chunk : ℕ → Chunk → Result Failure (Unit {0})
validate_chunk id chunk = do
  ensure (id == last_block chunk) unexpected_last_block
  ensure (leb (first_block chunk) (last_block chunk)) invalid_chunk_range

-- `to_block.map_or(true, |end| chunk.first_block() <= end)`
unfoldable pub starts_by : Option ℕ → Chunk → Bool
starts_by none chunk = true
starts_by (some end) chunk = leb (first_block chunk) end

-- The items that `next_chunk` returns one after another, from the entries under the cursor: it
-- ends at the first chunk outside the range, and every consumer ends at the first error.
unfoldable pub next_chunks : ℕ → Option ℕ → Entries → Items
unfolding validate_chunk starts_by
next_chunks from to [] = []
next_chunks from to ((id, chunk) ∷ rest) =
    let more = next_chunks from to rest in
    elim (validate_chunk id chunk) [
      | err e ↦ err e ∷ []
      | ok _ ↦ if leb from (last_block chunk) && starts_by to chunk then ok chunk ∷ more else []
    ]

-- `cursor.seek`: on to the first key at or above the target.
unfoldable pub seek : ℕ → Entries → Entries
seek id [] = []
seek id ((k, c) ∷ rest) = if ltb k id then seek id rest else (k, c) ∷ rest

-- `cursor.seek_prev` and `prev`: the keys at or below the target. No key is above `u64::MAX`.
unfoldable pub up_to : Option ℕ → Entries → Entries
up_to none es = es
up_to (some id) [] = []
up_to (some id) ((k, c) ∷ rest) = if leb k id then (k, c) ∷ up_to (some id) rest else []

unfoldable pub list_chunks : ℕ → Option ℕ → Entries → Items
unfolding next_chunks seek
list_chunks from to es = next_chunks from to (seek from es)

-- `list_chunks(..).into_reversed()`
unfoldable pub list_chunks_reversed : ℕ → Option ℕ → Entries → Items
unfolding next_chunks up_to
list_chunks_reversed from to es = next_chunks from to (reverse (up_to to es))
