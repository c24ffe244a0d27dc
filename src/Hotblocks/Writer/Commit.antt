-- ===== src/Hotblocks/Writer/Commit.antt =====
-- `finalize` and `new_chunk` of write_controller.rs: the commits of a finality report and of a chunk.
use data_lib.Common.{
  ℕ, Bool, true, false, Option, none, some, ◌&&◌, ltb, leb, str_eq, if◌then◌else◌, Result, ok, err,
  ensure, ◌>>=◌, ◌>>◌,
}
use data_lib.Storage.Data.{Chunk, BlockRef, first_block, last_block, last_block_hash}
use data_lib.Storage.Failure.{
  Failure, multiple_processes, unapplicable_fork, below_retained_window, stale_rollback_boundary,
  drops_finalized_block, rewrites_finalized_history,
}
use data_lib.Storage.Chunks.{Entries, list_chunks}
use data_lib.Storage.Blocks.{Reader, next_item}
use data_lib.Storage.Prefix.{Divergence, validate_finalized_prefix}
use data_lib.Storage.Tx.{Env, Dataset, chunk_entries, insert_fork, update_dataset}
use data_lib.Hotblocks.Finality.{
  Decision, applied, ignored, integrity_fault, get_chunk_head, last_stored, resolve_finality,
}
use data_lib.Hotblocks.Writer.{
  WriteController, option_ref_eq, set_head, set_finalized_head, abandon_tables,
}
use data_lib.Hotblocks.Writer.Retain.{relabel}

-- `window_start`: where the stored window begins, or the logical floor when nothing is stored.
unfoldable pub window_start : Entries → ℕ → Result Failure ℕ
window_start es floor = do
  first ← next_item (list_chunks 0 none es)
  ok (elim first as (λ _. ℕ) [ none ↦ floor | some chunk ↦ first_block chunk ])

-- Whether the chunk starts inside a stored one.
unfoldable pub starts_inside : Chunk → Option Chunk → Bool
starts_inside chunk none = false
starts_inside chunk (some existing) =
    ltb (first_block existing) (first_block chunk) && leb (first_block chunk) (last_block existing)

unfoldable pub refuse_divergence : Option Divergence → Result Failure (Unit {0})
refuse_divergence none = ok tt
refuse_divergence (some d) = err (unapplicable_fork rewrites_finalized_history)

-- A chunk that starts at or below the finalized head has to reproduce the region up to it.
unfoldable pub guard_finalized :
    Reader → Entries → Option BlockRef → Chunk → Result Failure (Unit {0})
guard_finalized rb es none chunk = ok tt
guard_finalized rb es (some current) chunk =
    if leb (first_block chunk) current.number
    then (do
      ensure (leb current.number (last_block chunk)) (unapplicable_fork drops_finalized_block)
      divergence ← validate_finalized_prefix rb es chunk current.number
      refuse_divergence divergence)
    else ok tt

-- The finalized head that the decision leaves.
unfoldable pub settle : Option BlockRef → Decision → Result Failure (Option BlockRef)
settle current (applied head) = ok (some head)
settle current (ignored reason) = ok current
settle current (integrity_fault reason) = err (unapplicable_fork reason)

unfoldable pub finalized_after :
    Reader
    → Entries
    → Option BlockRef
    → Chunk
    → ℕ
    → Option BlockRef
    → Result Failure (Option BlockRef)
finalized_after rb es current chunk floor none = ok current
finalized_after rb es current chunk floor (some report) = do
  decision ← resolve_finality rb es current (some chunk) floor report
  settle current decision

-- The tests that a chunk passes before anything is changed, and the finalized head that it leaves.
unfoldable pub admit :
    Reader
    → Entries
    → Option BlockRef
    → Chunk
    → ℕ
    → Option BlockRef
    → Result Failure (Option BlockRef)
admit rb es current chunk floor report = do
  start ← window_start es floor
  ensure (leb start (first_block chunk)) (unapplicable_fork below_retained_window)
  owner ← next_item (list_chunks (first_block chunk) (some (first_block chunk)) es)
  ensure (if starts_inside chunk owner then false else true)
      (unapplicable_fork stale_rollback_boundary)
  guard_finalized rb es current chunk
  finalized_after rb es current chunk floor report

-- `self.first_chunk_head.map_or(true, |h| chunk.first_block() <= h.number)`
unfoldable pub replaces_first : Chunk → Option BlockRef → Bool
replaces_first chunk none = true
replaces_first chunk (some h) = leb (first_block chunk) h.number

-- `Some(c) if c.last_block_hash() == head.hash`
unfoldable pub is_stored_head : BlockRef → Option Chunk → Bool
is_stored_head head none = false
is_stored_head head (some chunk) = str_eq (last_block_hash chunk) head.hash

module _ {env : Env} where
  -- The body of the transaction.
  unfoldable pub commit_chunk :
      Chunk → ℕ → Option BlockRef → Dataset env → Result Failure (Option BlockRef × Dataset env)
  commit_chunk chunk floor report s = do
    fin ← admit env.read_blocks (chunk_entries env s) s.label.finalized_head chunk floor report
    s' ← insert_fork env chunk (relabel env fin s)
    ok (fin, s')

  -- Head before finalized, once the commit stands.
  unfoldable pub publish_chunk : Chunk → Option BlockRef → WriteController env → WriteController env
  publish_chunk chunk fin c =
      let c' = set_finalized_head fin (set_head (some (get_chunk_head chunk)) c) in
      record c' {
        first_chunk_head =
            if replaces_first chunk c'.first_chunk_head then c'.head else c'.first_chunk_head;
      }

  unfoldable pub new_chunk :
      Option BlockRef
      → Chunk
      → WriteController env
      → Result Failure (Unit {0}) × WriteController env
  new_chunk report chunk c =
      elim (update_dataset env (commit_chunk chunk c.start_block report) c.db) [
        | err e ↦ (err e, abandon_tables chunk c)
        | ok (fin, db) ↦ (ok tt, publish_chunk chunk fin (record c { db = db }))
      ]

  unfoldable pub commit_decision :
      Decision → Dataset env → Result Failure (Option BlockRef × Dataset env)
  commit_decision (applied head) s = ok (some head, relabel env (some head) s)
  commit_decision (ignored reason) s = ok (none, s)
  commit_decision (integrity_fault reason) s = err (unapplicable_fork reason)

  -- The body of the transaction of `finalize`; `none` stands for an ignored report.
  unfoldable pub commit_finality :
      BlockRef
      → Option BlockRef
      → ℕ
      → BlockRef
      → Dataset env
      → Result Failure (Option BlockRef × Dataset env)
  commit_finality head known floor report s = do
    ensure (option_ref_eq s.label.finalized_head known) multiple_processes
    last ← last_stored (chunk_entries env s)
    ensure (is_stored_head head last) multiple_processes
    decision ←
        resolve_finality env.read_blocks (chunk_entries env s) s.label.finalized_head none floor
          report
    commit_decision decision s

  unfoldable pub publish_finality : Option BlockRef → WriteController env → WriteController env
  publish_finality none c = c
  publish_finality (some head) c = set_finalized_head (some head) c

  unfoldable pub finalize : BlockRef → WriteController env → Result Failure (WriteController env)
  finalize report c = elim c.head [
    | none ↦ ok c
    | some head ↦ do
      (update, db) ←
          update_dataset env (commit_finality head c.finalized_head c.start_block report) c.db
      ok (publish_finality update (record c { db = db }))
  ]
