-- ===== src/Storage/Blocks.antt =====
-- crates/storage/src/db/read/blocks_table.rs, and the block lookups of write/tx.rs: what a chunk's
-- `blocks` table says of its blocks. A table is immutable once written; `read_blocks` gives the rows
-- of a table by its id, in row order, in place of the columnar table reader.
use data_lib.Common.{
  ℕ, ◌+◌, String, Option, none, some, List, [], ◌∷◌, ◌&&◌, ltb, leb, ◌==◌, str_eq, if◌then◌else◌,
  Result, ok, err, ensure, ◌>>◌, ◌>>=◌,
}
use data_lib.Storage.Data.{
  Chunk, Tables, first_block, last_block, last_block_hash, parent_block_hash, tables,
}
use data_lib.Storage.Failure.{Failure, no_parent_hash_information, no_blocks_table, block_not_found}
use data_lib.Storage.Chunks.{Items, Entries, list_chunks}

pub record BlockRow : Type 0 where
  pub number : ℕ
  pub hash : String
  pub parent_hash : String

abbrev pub Reader : Type 0
Reader = ℕ → List BlockRow

unfoldable pub find_table : String → Tables → Option ℕ
find_table name [] = none
find_table name ((n, id) ∷ rest) = if str_eq n name then some id else find_table name rest

-- `chunk.tables().get("blocks").copied().ok_or_else(..)`, and the rows behind it.
unfoldable pub block_rows : Reader → Chunk → Result Failure (List BlockRow)
unfolding find_table
block_rows read_blocks chunk = elim (find_table "blocks" (tables chunk)) [
  | none ↦ err no_blocks_table
  | some id ↦ ok (read_blocks id)
]

-- `find_block_row` and the read of `parent_hash`: the first row with the least number at or above.
unfoldable pub find_block_row : ℕ → List BlockRow → Option BlockRow
find_block_row block [] = none
find_block_row block (r ∷ rest) = elim (find_block_row block rest) [
  | none ↦ if leb block r.number then some r else none
  | some best ↦ if leb block r.number && leb r.number best.number then some r else some best
]

-- Over a column of 32 bits the source looks for `block_number as u32`. That is the number itself, since
-- the only caller looks for a block up to the chunk's last one, which such a column holds.
unfoldable pub get_parent_block_hash : List BlockRow → ℕ → Result Failure String
unfolding find_block_row
get_parent_block_hash rows block = elim (find_block_row block rows) [
  | none ↦ err block_not_found
  | some r ↦ ok r.parent_hash
]

-- `find_exact_block_row` and the read of `hash`.
unfoldable pub find_block_hash : List BlockRow → ℕ → Option String
find_block_hash [] block = none
find_block_hash (r ∷ rest) block =
    if r.number == block then some r.hash else find_block_hash rest block

-- `Ok(Ok(()))` or `Ok(Err(actual))`
abbrev pub check_hash : String → String → Result String (Unit {0})
check_hash actual expected = if str_eq actual expected then ok tt else err actual

unfoldable pub validate_parent_block_hash :
    Reader → Chunk → ℕ → String → Result Failure (Result String (Unit {0}))
unfolding block_rows get_parent_block_hash
validate_parent_block_hash read_blocks chunk block expected =
    if first_block chunk == block
    then ok (check_hash (parent_block_hash chunk) expected)
    else if (last_block chunk + 1) == block
    then ok (check_hash (last_block_hash chunk) expected)
    else do
      ensure (ltb (first_block chunk) block && leb block (last_block chunk))
          no_parent_hash_information
      rows ← block_rows read_blocks chunk
      parent_hash ← get_parent_block_hash rows block
      ok (check_hash parent_hash expected)

unfoldable pub find_block_hash_in_chunk : Reader → Chunk → ℕ → Result Failure (Option String)
unfolding block_rows find_block_hash
find_block_hash_in_chunk read_blocks chunk block = do
  rows ← block_rows read_blocks chunk
  ok (find_block_hash rows block)

-- `iterator.next().transpose()?`
unfoldable pub next_item : Items → Result Failure (Option Chunk)
next_item [] = ok none
next_item (err e ∷ rest) = err e
next_item (ok c ∷ rest) = ok (some c)

unfoldable pub find_stored_block_hash : Reader → Entries → ℕ → Result Failure (Option String)
unfolding find_block_hash_in_chunk next_item list_chunks
find_stored_block_hash read_blocks es block = do
  found ← next_item (list_chunks block (some block) es)
  elim found [ none ↦ ok none | some chunk ↦ find_block_hash_in_chunk read_blocks chunk block ]
