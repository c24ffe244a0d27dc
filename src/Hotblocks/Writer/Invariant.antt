-- ===== src/Hotblocks/Writer/Invariant.antt =====
-- What holds of a controller between two messages: its working copy agrees with the committed state.
use data_lib.Common.{◌≤◌, ◌≡◌, Option, none, some, [], ◌∷◌, ok, inl, inr, reverse-append}
use data_lib.Storage.Data.{BlockRef}
use data_lib.Storage.Chunks.{Entries, list_chunks}
use data_lib.Storage.Chunks.Tiling.{
  IsTiled, first_chunk, last_chunk, last_chunk-snoc, snoc_cases, list_chunks_whole,
  list_chunks_reversed_whole,
}
use data_lib.Storage.Blocks.{next_item}
use data_lib.Storage.Tx.{Env, chunk_entries}
use data_lib.Hotblocks.Finality.{last_stored}
use data_lib.Hotblocks.Writer.{WriteController, option_map_head}

-- A finalized head stands only below or at a head.
abbrev pub FinalizedUpTo : Option BlockRef → Option BlockRef → Type 0
FinalizedUpTo none h = Unit
FinalizedUpTo (some f) none = ⊥
FinalizedUpTo (some f) (some h) = f.number ≤ h.number

pub record IsSynced {env : Env} (c : WriteController env) : Type 0 where
  pub tiled : IsTiled (chunk_entries env c.db)
  pub head_stored : c.head ≡ option_map_head (last_chunk (chunk_entries env c.db))
  pub first_stored : c.first_chunk_head ≡ option_map_head (first_chunk (chunk_entries env c.db))
  pub finalized_stored : c.finalized_head ≡ c.db.label.finalized_head
  pub head_published : c.head_channel ≡ c.head
  pub finalized_published : c.finalized_channel ≡ c.finalized_head
  pub ordered : FinalizedUpTo c.finalized_head c.head

pub last_stored_lem : (es : Entries) → IsTiled es → last_stored es ≡ ok (last_chunk es)
unfolding last_stored next_item
last_stored_lem es t = elim (snoc_cases es) [
  | inl nil ↦ rw (list_chunks_reversed_whole es t, nil)
  | inr (xs, e, split) ↦
      rw (list_chunks_reversed_whole es t, split, reverse-append, last_chunk-snoc)
]

pub first_stored_lem :
    (es : Entries) → IsTiled es → next_item (list_chunks 0 none es) ≡ ok (first_chunk es)
unfolding next_item
first_stored_lem [] t = rw list_chunks_whole
first_stored_lem (e ∷ es) t = rw (list_chunks_whole (e ∷ es) t)
