-- ===== src/Hotblocks/Writer/Rebuilt.antt =====
-- `WriteController::new` of write_controller.rs over a dataset that exists.
use data_lib.Common.{◌≡◌, refl, Option, none, some, ok}
use data_lib.Storage.Data.{BlockRef, Chunk, first_block, parent_block_hash}
use data_lib.Storage.Chunks.Tiling.{IsTiled, first_chunk, last_chunk}
use data_lib.Storage.Tx.{Env, Dataset, chunk_entries}
use data_lib.Hotblocks.Writer.{
  WriteController, new_controller, option_map_head, publish, publish_lem,
}
use data_lib.Hotblocks.Writer.Invariant.{IsSynced, FinalizedUpTo, first_stored_lem, last_stored_lem}

-- The floor and its parent hash are those of the first stored chunk, or 0 and none.
abbrev pub IsAnchored : {env : Env} → WriteController env → Option Chunk → Type 0
IsAnchored c none = (c.start_block ≡ 0) × (c.parent_hash ≡ none)
IsAnchored c (some chunk) =
    (c.start_block ≡ first_block chunk) × (c.parent_hash ≡ some (parent_block_hash chunk))

module _ {env : Env} (db : Dataset env) (head_channel finalized_channel : Option BlockRef) where
  built : (first last : Option Chunk) → WriteController env
  built first last = record {
    db = db;
    start_block = elim first [ none ↦ 0 | some chunk ↦ first_block chunk ];
    parent_hash = elim first [ none ↦ none | some chunk ↦ some (parent_block_hash chunk) ];
    first_chunk_head = option_map_head first;
    head = option_map_head last;
    finalized_head = db.label.finalized_head;
    head_channel = (publish head_channel (option_map_head last)).0;
    finalized_channel = (publish finalized_channel db.label.finalized_head).0;
  }

  -- Over a tiled window whose finalized head is at or below its last block, a new controller is made
  -- without an error, whatever the channels held; it is synced, and its floor and parent hash are
  -- those of the first stored chunk.
  pub new_controller-IsSynced :
      IsTiled (chunk_entries env db)
      → FinalizedUpTo db.label.finalized_head (option_map_head (last_chunk (chunk_entries env db)))
      → (c : WriteController env) × (new_controller env db head_channel finalized_channel ≡ ok c)
        × IsSynced c
        × IsAnchored c (first_chunk (chunk_entries env db))
  unfolding new_controller built
  new_controller-IsSynced t f =
      let es = chunk_entries env db in
      (
        built (first_chunk es) (last_chunk es),
        rw (first_stored_lem es t, last_stored_lem es t),
        record {
          tiled = t;
          head_stored = refl;
          first_stored = refl;
          finalized_stored = refl;
          head_published = publish_lem head_channel (option_map_head (last_chunk es));
          finalized_published = publish_lem finalized_channel db.label.finalized_head;
          ordered = f;
        },
        anchored (first_chunk es),
      )
    where
      anchored :
          (first : Option Chunk)
          → IsAnchored (built first (last_chunk (chunk_entries env db))) first
      anchored none = (refl, refl)
      anchored (some chunk) = (refl, refl)
