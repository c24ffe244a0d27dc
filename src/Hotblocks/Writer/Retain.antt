-- ===== src/Hotblocks/Writer/Retain.antt =====
-- `_retain` of write_controller.rs: moves the window's floor to a block. The chunks wholly below the
-- floor go; the first one that reaches it stays with all that follow, if it holds the floor under the
-- expected parent hash, and otherwise the window is cleared or the request refused.
pub mod Trimmed
pub mod Synced
use data_lib.Common.{
  ℕ, String, Bool, true, false, Option, none, some, [], ◌∷◌, ltb, leb, if◌then◌else◌, Result, ok,
  err, ◌>>=◌,
}
use data_lib.Storage.Data.{Chunk, BlockRef, first_block, last_block}
use data_lib.Storage.Data
use data_lib.Storage.Failure.{Failure, panicked, retention_gap, retention_hash_mismatch}
use data_lib.Storage.Chunks.{Items, list_chunks}
use data_lib.Storage.Blocks.{validate_parent_block_hash}
use data_lib.Storage.Tx.{Env, Dataset, chunk_entries, delete_chunk, update_dataset}
use data_lib.Hotblocks.Finality.{get_chunk_head, last_stored}
use data_lib.Hotblocks.Writer.{
  WriteController, set_head, set_finalized_head, clear_heads, starts_at,
}

pub data Status : Type 0 where
  range : Chunk → Chunk → Option BlockRef → Status
  hash_mismatch : Status
  gap : ℕ → Status
  clear : Status

-- `finalized_head().filter(|h| chunk.first_block() <= h.number)`
unfoldable pub finalized_from : Chunk → Option BlockRef → Option BlockRef
finalized_from chunk none = none
finalized_from chunk (some h) = if leb (first_block chunk) h.number then some h else none

unfoldable pub after_gap : ℕ → Status → Status
after_gap first clear = gap first
after_gap first status = status

module _ (env : Env) where
  abbrev pub relabel : Option BlockRef → Dataset env → Dataset env
  relabel fin s = record s { label = Data.set_finalized_head fin s.label }

  unfoldable pub check_parent :
      Chunk → ℕ → Option String → Result Failure (Result String (Unit {0}))
  check_parent chunk from none = ok (ok tt)
  check_parent chunk from (some hash) = validate_parent_block_hash env.read_blocks chunk from hash

  -- `if finalized_head.is_none() { tx.set_finalized_head(None) }`
  unfoldable pub unfinalize : Option BlockRef → Dataset env → Dataset env
  unfinalize none s = relabel none s
  unfinalize (some h) s = s

  -- The chunk that holds the floor is reached, and everything from it on is kept.
  unfoldable pub keep_from : Chunk → Dataset env → Result Failure (Status × Dataset env)
  keep_from chunk s = do
    last ← last_stored (chunk_entries env s)
    let fin = finalized_from chunk s.label.finalized_head
    elim last [
      -- `expect`
      | none ↦ err panicked
      | some head ↦ ok (range chunk head fin, unfinalize fin s)
    ]

  -- The loop over the stored chunks from the first one on.
  unfoldable pub retain_chunks :
      ℕ
      → Option String
      → Bool
      → Items
      → Status
      → Dataset env
      → Result Failure (Status × Dataset env)
  retain_chunks from hash delete_mismatch [] status s = ok (status, relabel none s)
  retain_chunks from hash delete_mismatch (err e ∷ rest) status s = err e
  retain_chunks from hash delete_mismatch (ok chunk ∷ rest) status s =
      let below = retain_chunks from hash delete_mismatch rest status (delete_chunk env chunk s) in
      let above =
        retain_chunks from hash delete_mismatch rest (after_gap (first_block chunk) status)
          (delete_chunk env chunk s) in
      let mismatched =
        retain_chunks from hash delete_mismatch rest hash_mismatch (delete_chunk env chunk s) in
      if ltb (last_block chunk) from
      then below
      else if ltb from (first_block chunk)
      then (if delete_mismatch then above else err retention_gap)
      else do
        checked ← check_parent chunk from hash
        elim checked [
          | err actual ↦ if delete_mismatch then mismatched else err retention_hash_mismatch
          | ok _ ↦ keep_from chunk s
        ]

module _ {env : Env} where
  -- The controller's own fields, once the transaction has committed.
  unfoldable pub apply_status : Status → WriteController env → WriteController env × Bool
  apply_status (range first_chunk head fin) c = (
    record (set_finalized_head fin (set_head (some (get_chunk_head head)) c)) {
      first_chunk_head = some (get_chunk_head first_chunk);
    },
    true,
  )
  apply_status hash_mismatch c = (clear_heads c, false)
  apply_status (gap existed) c = (clear_heads c, false)
  apply_status clear c = (clear_heads c, false)

  -- The result tells whether the window survived.
  unfoldable pub retain_with :
      Bool → ℕ → Option String → WriteController env → Result Failure (Bool × WriteController env)
  retain_with delete_mismatch from hash c = if starts_at from hash c then ok (true, c) else do
    (status, db) ←
        update_dataset env
          (λ s.
            retain_chunks env from hash delete_mismatch (list_chunks 0 none (chunk_entries env s))
              clear s)
          c.db
    let (c', kept) = apply_status status (record c { db = db })
    ok (kept, record c' { start_block = from; parent_hash = hash })

  unfoldable pub retain :
      ℕ → Option String → WriteController env → Result Failure (Bool × WriteController env)
  retain = retain_with true

  unfoldable pub init_retention :
      ℕ → Option String → WriteController env → Result Failure (Bool × WriteController env)
  init_retention = retain_with false
