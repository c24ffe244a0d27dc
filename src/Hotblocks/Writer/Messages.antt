-- ===== src/Hotblocks/Writer/Messages.antt =====
-- `handle_ingest_msg` of write_controller.rs: the messages of an ingest task, in order. The outcome is
-- kept beside the controller, since a message that fails may have changed it.
pub mod Keeps
use data_lib.Common.{
  ℕ, zero, suc, ◌+◌, ◌-◌, ◌≤◌, ◌<◌, ◌≡◌, ◌≢◌, ◌↔◌, ◌⊎◌, inl, inr, refl, sym, ap, subst, ◌∙◌, String,
  Bool, true, false, not, ◌&&◌, ◌||◌, Option, none, some, List, [], ◌∷◌, ◌++◌, map, reverse, arith,
  ltb, leb, ◌==◌, str_eq, eq_iff, if◌then◌else◌, Result, ok, err, ensure, ◌>>=◌, ◌>>◌, >>=-eq-ok,
  All, All-append, Bool-cases, Option-cases, min, max, length, get_elem?, append_assoc, append-nil,
  last?, ◌%◌, ◌^◌,
}
use data_lib.Storage.Data.{BlockRef, Chunk, Tables, v1}
use data_lib.Storage.Failure.{Failure}
use data_lib.Storage.Tx.{Env, Dataset}
use data_lib.Hotblocks.Writer
use data_lib.Hotblocks.Writer.{WriteController}
use data_lib.Hotblocks.Writer.Retain.{retain}
use data_lib.Hotblocks.Writer.Commit.{finalize, new_chunk}
use data_lib.Hotblocks.Writer.Rollback.{Rollback, compute_rollback}
use data_lib.Common.Int.{ℤ}

-- `tables` is what becomes of the prepared tables once they are written: their numbers, or a failure.
pub record NewChunk : Type 0 where
  pub finalized_head : Option BlockRef
  pub parent_block_hash : String
  pub first_block : ℕ
  pub last_block : ℕ
  pub last_block_hash : String
  pub first_block_time : Option ℤ
  pub last_block_time : Option ℤ
  pub tables : Result Failure Tables

-- `listening`: the ingest task still waits for the rollback.
pub data IngestMessage : Type 0 where
  finalized : BlockRef → IngestMessage
  chunk : NewChunk → IngestMessage
  fork : List BlockRef → Bool → IngestMessage

pub data FlushFloorUpdate : Type 0 where
  unchanged : FlushFloorUpdate
  set : Option ℕ → FlushFloorUpdate

-- Subtraction on `u64`, as a release build does it.
abbrev pub sub_u64 : ℕ → ℕ → ℕ
sub_u64 a b = (a + 2 ^ 64 - b) % 2 ^ 64

unfoldable pub trim_floor : Option ℕ → ℕ → ℕ → Option ℕ
trim_floor none next_block max_blocks = none
trim_floor (some first_chunk_head) next_block max_blocks =
    if ltb max_blocks (sub_u64 next_block first_chunk_head)
    then some (sub_u64 next_block max_blocks)
    else none

unfoldable pub stored_chunk : NewChunk → Tables → Chunk
stored_chunk n tables =
    v1 n.first_block n.last_block n.last_block_hash n.parent_block_hash n.first_block_time
      n.last_block_time tables

abbrev pub option_number : Option BlockRef → Option ℕ
option_number none = none
option_number (some b) = some b.number

module _ {env : Env} where
  unfoldable pub write_new_chunk :
      NewChunk → WriteController env → Result Failure (Unit {0}) × WriteController env
  write_new_chunk n c = elim n.tables [
    | err e ↦ (err e, c)
    | ok tables ↦ new_chunk n.finalized_head (stored_chunk n tables) c
  ]

  -- The trim behind the head, its verdict ignored.
  unfoldable pub trim :
      Option ℕ → WriteController env → Result Failure FlushFloorUpdate × WriteController env
  trim none c = (ok (set none), c)
  trim (some n) c = elim (trim_floor (option_number c.first_chunk_head) (Writer.next_block c) n) [
    | none ↦ (ok (set none), c)
    | some floor ↦ elim (retain floor none c) [
      | err e ↦ (err e, c)
      | ok (kept, c') ↦ (ok (set none), c')
    ]
  ]

  unfoldable pub after_write :
      Option ℕ
      → Result Failure (Unit {0}) × WriteController env
      → Result Failure FlushFloorUpdate × WriteController env
  after_write retain_from_head (err e, c) = (err e, c)
  after_write retain_from_head (ok _, c) = trim retain_from_head c

  unfoldable pub handle_ingest_msg :
      IngestMessage
      → Option ℕ
      → WriteController env
      → Result Failure FlushFloorUpdate × WriteController env
  handle_ingest_msg (finalized head) retain_from_head c = elim (finalize head c) [
    | err e ↦ (err e, c)
    | ok c' ↦ (ok unchanged, c')
  ]
  handle_ingest_msg (chunk n) retain_from_head c =
      after_write retain_from_head (write_new_chunk n c)
  handle_ingest_msg (fork prev_blocks listening) retain_from_head c =
      elim (compute_rollback prev_blocks c) [
        | err e ↦ (err e, c)
        | ok rollback ↦ (ok (set (if listening then rollback.reach_at_least else none)), c)
      ]

  -- An epoch: the messages one after another, up to the first that fails.
  unfoldable pub handle_all :
      List IngestMessage → Option ℕ → WriteController env → WriteController env
  handle_all [] retain_from_head c = c
  handle_all (m ∷ ms) retain_from_head c =
      let (outcome, c') = handle_ingest_msg m retain_from_head c in
      let rest = handle_all ms retain_from_head c' in elim outcome [ err e ↦ c' | ok update ↦ rest ]
