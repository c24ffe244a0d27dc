-- ===== src/Hotblocks/Writer/Messages/Keeps.antt =====
-- `handle_ingest_msg` of write_controller.rs: the controller afterwards.
use data_lib.Common.{
  ℕ, ◌≤◌, ◌≡◌, refl, Bool, true, Option, none, some, List, [], ◌∷◌, Result, ok, err, All,
}
use data_lib.Storage.Data.{Tables, first_block, last_block}
use data_lib.Storage.Failure.{Failure}
use data_lib.Storage.Tx.{Env}
use data_lib.Hotblocks.Writer
use data_lib.Hotblocks.Writer.{WriteController}
use data_lib.Hotblocks.Writer.Invariant.{IsSynced}
use data_lib.Hotblocks.Writer.Retain.{retain}
use data_lib.Hotblocks.Writer.Retain.Synced.{retain_with-Retained}
use data_lib.Hotblocks.Writer.Commit.{finalize}
use data_lib.Hotblocks.Writer.Finalize.{finalize-Finalized}
use data_lib.Hotblocks.Writer.NewChunk.{new_chunk-IsSynced}
use data_lib.Hotblocks.Writer.Rollback.{Rollback, compute_rollback}
use data_lib.Hotblocks.Writer.Messages.{
  NewChunk, IngestMessage, finalized, chunk, fork, FlushFloorUpdate, trim_floor, option_number,
  write_new_chunk, trim, after_write, handle_ingest_msg, handle_all, stored_chunk,
}

-- A chunk in a message has a range that is not empty.
abbrev pub IsSound : IngestMessage → Type 0
IsSound (finalized head) = Unit
IsSound (chunk n) = n.first_block ≤ n.last_block
IsSound (fork prev_blocks listening) = Unit

module _ {env : Env} where
  write_new_chunk-IsSynced :
      (n : NewChunk) (c : WriteController env)
      → n.first_block ≤ n.last_block
      → IsSynced c
      → IsSynced (write_new_chunk n c).1
  unfolding write_new_chunk stored_chunk
  write_new_chunk-IsSynced n c v y = at n.tables refl
    where
      at : (t : Result Failure Tables) → n.tables ≡ t → IsSynced (write_new_chunk n c).1
      at (err e) q = rw (q, write_new_chunk) y
      at (ok tables) q =
          rw (q, write_new_chunk)
            (new_chunk-IsSynced n.finalized_head (stored_chunk n tables) c
              (unfold first_block last_block in v) y)

  trim-IsSynced :
      (retain_from_head : Option ℕ) (c : WriteController env)
      → IsSynced c
      → IsSynced (trim retain_from_head c).1
  unfolding trim
  trim-IsSynced none c y = y
  trim-IsSynced (some n) c y =
      at (trim_floor (option_number c.first_chunk_head) (Writer.next_block c) n) refl
    where
      retained :
          (floor : ℕ) (r : Result Failure (Bool × WriteController env))
          → trim_floor (option_number c.first_chunk_head) (Writer.next_block c) n ≡ some floor
          → retain floor none c ≡ r
          → IsSynced (trim (some n) c).1
      retained floor (err e) t q = rw (t, q, trim) y
      retained floor (ok (kept, c')) t q =
          rw (t, q, trim)
            (retain_with-Retained true floor none c kept c' y (unfold retain in q)).synced

      at :
          (t : Option ℕ)
          → trim_floor (option_number c.first_chunk_head) (Writer.next_block c) n ≡ t
          → IsSynced (trim (some n) c).1
      at none t = rw (t, trim) y
      at (some floor) t = retained floor _ t refl

  after_write-IsSynced :
      (retain_from_head : Option ℕ) (r : Result Failure (Unit {0}) × WriteController env)
      → IsSynced r.1
      → IsSynced (after_write retain_from_head r).1
  unfolding after_write
  after_write-IsSynced retain_from_head (err e, c) y = y
  after_write-IsSynced retain_from_head (ok u, c) y = trim-IsSynced retain_from_head c y

  handle_ingest_msg-IsSynced :
      (m : IngestMessage) (retain_from_head : Option ℕ) (c : WriteController env)
      → IsSound m
      → IsSynced c
      → IsSynced (handle_ingest_msg m retain_from_head c).1
  unfolding handle_ingest_msg
  handle_ingest_msg-IsSynced (finalized head) retain_from_head c v y = at _ refl
    where
      at :
          (r : Result Failure (WriteController env))
          → finalize head c ≡ r
          → IsSynced (handle_ingest_msg (finalized head) retain_from_head c).1
      at (err e) q = rw (q, handle_ingest_msg) y
      at (ok c') q = rw (q, handle_ingest_msg) (finalize-Finalized head c c' y q).synced
  handle_ingest_msg-IsSynced (chunk n) retain_from_head c v y =
      after_write-IsSynced retain_from_head (write_new_chunk n c) (write_new_chunk-IsSynced n c v y)
  handle_ingest_msg-IsSynced (fork prev_blocks listening) retain_from_head c v y = at _ refl
    where
      at :
          (r : Result Failure Rollback)
          → compute_rollback prev_blocks c ≡ r
          → IsSynced (handle_ingest_msg (fork prev_blocks listening) retain_from_head c).1
      at (err e) q = rw (q, handle_ingest_msg) y
      at (ok rollback) q = rw (q, handle_ingest_msg) y

  -- An epoch of messages, whichever of them is the first to fail, leaves a synced writer synced. The
  -- ranges of the chunks are taken to be non-empty.
  pub handle_all-IsSynced :
      (ms : List IngestMessage) (retain_from_head : Option ℕ) (c : WriteController env)
      → All IsSound ms
      → IsSynced c
      → IsSynced (handle_all ms retain_from_head c)
  unfolding handle_all
  handle_all-IsSynced [] retain_from_head c v y = y
  handle_all-IsSynced (m ∷ ms) retain_from_head c v y =
      let y' = handle_ingest_msg-IsSynced m retain_from_head c v.0 y in
      let rest =
        handle_all-IsSynced ms retain_from_head (handle_ingest_msg m retain_from_head c).1 v.1 y' in
      at _ refl y' rest
    where
      at :
          (r : Result Failure FlushFloorUpdate)
          → (handle_ingest_msg m retain_from_head c).0 ≡ r
          → IsSynced (handle_ingest_msg m retain_from_head c).1
          → IsSynced (handle_all ms retain_from_head (handle_ingest_msg m retain_from_head c).1)
          → IsSynced (handle_all (m ∷ ms) retain_from_head c)
      at (err e) q y' rest = rw (q, handle_all) y'
      at (ok u) q y' rest = rw (q, handle_all) rest
