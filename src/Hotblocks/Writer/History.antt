-- ===== src/Hotblocks/Writer/History.antt =====
-- `new_chunk` of write_controller.rs against the finalized blocks that are stored.
use data_lib.Common.{
  ℕ, ◌≤◌, ◌≡◌, refl, sym, subst, ◌∙◌, Option, none, some, List, arith, Result, ok, err,
}
use data_lib.Storage.Data.{BlockRef, Chunk, first_block, last_block}
use data_lib.Storage.Failure.{Failure}
use data_lib.Storage.Chunks.{Entries, list_chunks}
use data_lib.Storage.Blocks.{Reader, BlockRow, block_rows}
use data_lib.Storage.Prefix.{Divergence, collect, validate_finalized_prefix}
use data_lib.Storage.Prefix.Exact.{history, blocks, rows_upto, validate_finalized_prefix_exact}
use data_lib.Storage.Tx.{Env, Dataset, chunk_entries, update_dataset}
use data_lib.Hotblocks.Writer.{WriteController}
use data_lib.Hotblocks.Writer.Commit.{guard_finalized, new_chunk, commit_chunk, refuse_divergence}
use data_lib.Hotblocks.Writer.Invariant.{IsSynced}
use data_lib.Hotblocks.Writer.NewChunk.{commit_chunk-Committed}

-- The chunk reaches the height, and up to it its blocks are those of the stored chunks of that range,
-- all of which can be read.
pub record Reproduces (rb : Reader) (es : Entries) (chunk : Chunk) (to : ℕ) : Type 0 where
  pub stored : List Chunk
  pub rows : List BlockRow
  pub replaced : List BlockRow
  pub listed : collect (list_chunks (first_block chunk) (some to) es) ≡ ok stored
  pub own : block_rows rb chunk ≡ ok rows
  pub read : history rb (first_block chunk) to stored ≡ ok replaced
  pub same : blocks (rows_upto to rows) ≡ blocks replaced
  pub reaches : to ≤ last_block chunk

guard_finalized-Reproduces :
    (rb : Reader) (es : Entries) (current : BlockRef) (chunk : Chunk)
    → guard_finalized rb es (some current) chunk ≡ ok tt
    → first_block chunk ≤ current.number
    → Reproduces rb es chunk current.number
unfolding guard_finalized
guard_finalized-Reproduces rb es current chunk g le = at _ refl _ refl
  where
    at :
        (l : Result Failure (List Chunk))
        → collect (list_chunks (first_block chunk) (some current.number) es) ≡ l
        → (r : Result Failure (List BlockRow)) → block_rows rb chunk ≡ r
        → Reproduces rb es chunk current.number
    at (err e) p r q = absurd (unfold validate_finalized_prefix in ground arith)
    at (ok left) p (err e) q = absurd (unfold validate_finalized_prefix in ground arith)
    at (ok left) p (ok rows) q = checked _ refl
      where
        checked :
            (v : Result Failure (Option Divergence))
            → validate_finalized_prefix rb es chunk current.number ≡ v
            → Reproduces rb es chunk current.number
        checked (err e) v = absurd (ground arith)
        checked (ok (some d)) v = absurd (unfold refuse_divergence in ground arith)
        checked (ok none) v =
            let (h, read, same) =
              (validate_finalized_prefix_exact rb es chunk current.number left rows p q).0 v in
            record {
              stored = left;
              rows = rows;
              replaced = h;
              listed = p;
              own = q;
              read = read;
              same = same;
              reaches = ground arith;
            }

-- A chunk that a synced controller accepts although it starts at or below the finalized head reaches
-- that head and carries up to it, number for number and hash for hash, the stored blocks that it
-- replaces. The chunk's range is taken to be non-empty.
pub new_chunk-Reproduces :
    {env : Env} (report : Option BlockRef) (chunk : Chunk) (c : WriteController env)
    (fin : BlockRef)
    → first_block chunk ≤ last_block chunk
    → IsSynced c
    → (new_chunk report chunk c).0 ≡ ok tt
    → c.finalized_head ≡ some fin
    → first_block chunk ≤ fin.number
    → Reproduces env.read_blocks (chunk_entries env c.db) chunk fin.number
unfolding new_chunk
new_chunk-Reproduces {env} report chunk c fin v y h f le = at _ refl
  where
    at :
        (r : Result Failure (Option BlockRef × Dataset env))
        → update_dataset env (commit_chunk chunk c.start_block report) c.db ≡ r
        → Reproduces env.read_blocks (chunk_entries env c.db) chunk fin.number
    at (err e) q = absurd (ground arith)
    at (ok (g, db)) q =
        let k = commit_chunk-Committed report g chunk c.start_block c.db db y.tiled v q in
        guard_finalized-Reproduces env.read_blocks (chunk_entries env c.db) fin chunk
          (subst (λ x. guard_finalized env.read_blocks (chunk_entries env c.db) x chunk ≡ ok tt)
            (sym y.finalized_stored ∙ f) k.admitted.guarded)
          le
