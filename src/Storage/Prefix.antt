-- ===== src/Storage/Prefix.antt =====
-- `validate_finalized_prefix` of crates/storage/src/db/write/tx.rs: the replacement's blocks are
-- streamed past a cursor over the stored blocks, which holds the rest of one chunk at a time.
pub mod Exact
use data_lib.Common.{
  ℕ, String, Bool, Option, none, some, List, [], ◌∷◌, ◌&&◌, ltb, leb, ◌==◌, str_eq, if◌then◌else◌,
  Result, ok, err, ◌>>=◌,
}
use data_lib.Storage.Data.{Chunk, first_block}
use data_lib.Storage.Failure.{Failure}
use data_lib.Storage.Chunks.{Items, Entries, list_chunks}
use data_lib.Storage.Blocks.{BlockRow, Reader, block_rows}

-- The ways to diverge, with the block numbers and hashes of the message.
pub data Divergence : Type 0 where
  not_stored : ℕ → String → Divergence
  differs : ℕ → String → ℕ → String → Divergence
  missing : ℕ → String → Divergence

-- `stored[pos..]`, the chunks that `stored_chunks` has left, and the divergence found.
pub record Cursor : Type 0 where
  pub stored : List BlockRow
  pub left : List Chunk
  pub divergence : Option Divergence

abbrev pub rows_within : ℕ → ℕ → List BlockRow → List BlockRow
rows_within from to [] = []
rows_within from to (r ∷ rs) =
    if leb from r.number && leb r.number to
    then r ∷ rows_within from to rs
    else rows_within from to rs

unfoldable pub read_block_hashes : Reader → ℕ → ℕ → Chunk → Result Failure (List BlockRow)
read_block_hashes read_blocks from to chunk = do
  rows ← block_rows read_blocks chunk
  ok (rows_within from to rows)

-- `collect::<Result<Vec<_>>>()`
unfoldable pub collect : Items → Result Failure (List Chunk)
collect [] = ok []
collect (err e ∷ rest) = err e
collect (ok c ∷ rest) = do cs ← collect rest; ok (c ∷ cs)

-- Makes a stored block available at the head of `stored`, if there is one; `stored` is empty at the
-- end only when no chunk is left.
unfoldable pub seek_stored :
    Reader → ℕ → ℕ → List BlockRow → List Chunk → Result Failure (List BlockRow × List Chunk)
unfolding read_block_hashes
seek_stored read_blocks from to (r ∷ rs) left = ok (r ∷ rs, left)
seek_stored read_blocks from to [] [] = ok ([], [])
seek_stored read_blocks from to [] (c ∷ left) = do
  rows ← read_block_hashes read_blocks from to c
  seek_stored read_blocks from to rows left

-- The comparison with `stored[pos]`, once `seek_stored` has run.
unfoldable pub compare_stored : BlockRow → List BlockRow → List Chunk → Cursor
compare_stored row [] left = record {
  stored = [];
  left = left;
  divergence = some (not_stored row.number row.hash);
}
compare_stored row (r ∷ rs) left =
    if (r.number == row.number) && str_eq r.hash row.hash
    then record { stored = rs; left = left; divergence = none }
    else record {
      stored = r ∷ rs;
      left = left;
      divergence = some (differs r.number r.hash row.number row.hash);
    }

-- The callback of `for_each_block_hash`.
unfoldable pub visit : Reader → ℕ → ℕ → BlockRow → Cursor → Result Failure Cursor
unfolding seek_stored compare_stored
visit read_blocks from to row cur = elim cur.divergence [
  | some d ↦ ok cur
  | none ↦ if ltb to row.number then ok cur else do
    (stored, left) ← seek_stored read_blocks from to cur.stored cur.left
    ok (compare_stored row stored left)
]

unfoldable pub visit_all : Reader → ℕ → ℕ → List BlockRow → Cursor → Result Failure Cursor
unfolding visit
visit_all read_blocks from to [] cur = ok cur
visit_all read_blocks from to (row ∷ rows) cur = do
  cur' ← visit read_blocks from to row cur
  visit_all read_blocks from to rows cur'

-- After the last row a stored block may still be waiting.
unfoldable pub verdict : Reader → ℕ → ℕ → Cursor → Result Failure (Option Divergence)
unfolding seek_stored
verdict read_blocks from to cur = elim cur.divergence [
  | some d ↦ ok (some d)
  | none ↦ do
    (stored, left) ← seek_stored read_blocks from to cur.stored cur.left
    elim stored [ [] ↦ ok none | r ∷ rs ↦ ok (some (missing r.number r.hash)) ]
]

-- `none` is `Ok(Ok(()))`, a divergence is `Ok(Err(..))`.
unfoldable pub validate_finalized_prefix :
    Reader → Entries → Chunk → ℕ → Result Failure (Option Divergence)
unfolding collect visit_all verdict list_chunks block_rows
validate_finalized_prefix read_blocks es chunk to =
    let from = first_block chunk in
    do
      left ← collect (list_chunks from (some to) es)
      rows ← block_rows read_blocks chunk
      cur ←
          visit_all read_blocks from to rows
            (record { stored = []; left = left; divergence = none })
      verdict read_blocks from to cur
