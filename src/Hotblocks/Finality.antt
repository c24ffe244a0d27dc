-- ===== src/Hotblocks/Finality.antt =====
-- `resolve_finality` of crates/hotblocks/src/dataset_controller/write_controller.rs: what becomes of
-- a report that a block is final, given the state that the transaction will leave.
pub mod Sound
use data_lib.Common.{
  ℕ, ◌≤◌, ◌≡◌, String, Bool, true, false, Option, none, some, List, [], ◌∷◌, ◌&&◌, ltb, leb, ◌==◌,
  str_eq, if◌then◌else◌, Result, ok, err, ◌>>=◌,
}
use data_lib.Storage.Data.{Chunk, BlockRef, first_block, last_block, last_block_hash}
use data_lib.Storage.Failure.{
  Failure, ForkReason, empty_dataset, finality_hash_changed, finality_contradicts_chunk,
  finality_evicts_finalized_block, finality_contradicts_stored_block,
}
use data_lib.Storage.Chunks.{Entries, list_chunks_reversed}
use data_lib.Storage.Blocks.{Reader, find_block_hash_in_chunk, find_stored_block_hash, next_item}

pub data IgnoreReason : Type 0 where
  regressive already_finalized below_retained_window no_block_at_height : IgnoreReason

pub data Decision : Type 0 where
  applied : BlockRef → Decision
  ignored : IgnoreReason → Decision
  integrity_fault : ForkReason → Decision

unfoldable pub get_chunk_head : Chunk → BlockRef
get_chunk_head chunk = record { number = last_block chunk; hash = last_block_hash chunk }

unfoldable pub last_stored : Entries → Result Failure (Option Chunk)
last_stored es = next_item (list_chunks_reversed 0 none es)

unfoldable pub head_after : Entries → Option Chunk → Result Failure BlockRef
head_after es (some chunk) = ok (get_chunk_head chunk)
head_after es none = do
  last ← last_stored es
  elim last [ none ↦ err empty_dataset | some head ↦ ok (get_chunk_head head) ]

-- The tests of the effective report against the window and the present finalized head; `none` lets
-- the report go on.
unfoldable pub precheck : Option BlockRef → ℕ → BlockRef → Option Decision
precheck none floor report =
    if ltb report.number floor then some (ignored below_retained_window) else none
precheck (some current) floor report =
    if ltb report.number floor
    then some (ignored below_retained_window)
    else if ltb report.number current.number
    then some (ignored regressive)
    else if report.number == current.number
    then (if str_eq report.hash current.hash
        then some (ignored already_finalized)
        else some (integrity_fault finality_hash_changed))
    else none

-- `replacement.filter(|c| c.first_block() <= n && n <= c.last_block())`
unfoldable pub in_batch : Option Chunk → ℕ → Option Chunk
in_batch none n = none
in_batch (some c) n = if leb (first_block c) n && leb n (last_block c) then some c else none

abbrev pub confirm : BlockRef → ForkReason → String → Decision
confirm report reason hash =
    if str_eq hash report.hash then applied report else integrity_fault reason

-- A block number that the replacement owns.
unfoldable pub resolve_in_chunk : Reader → Entries → Chunk → BlockRef → Result Failure Decision
resolve_in_chunk rb es chunk report = do
  carried ← find_block_hash_in_chunk rb chunk report.number
  elim carried [
    | some hash ↦ ok (confirm report finality_contradicts_chunk hash)
    | none ↦ do
      stored ← find_stored_block_hash rb es report.number
      elim stored [
        | some hash ↦ ok (integrity_fault finality_evicts_finalized_block)
        | none ↦ ok (ignored no_block_at_height)
      ]
  ]

-- A block number that stored history owns.
unfoldable pub resolve_in_history : Reader → Entries → BlockRef → Result Failure Decision
resolve_in_history rb es report = do
  stored ← find_stored_block_hash rb es report.number
  elim stored [
    | some hash ↦ ok (confirm report finality_contradicts_stored_block hash)
    | none ↦ ok (ignored no_block_at_height)
  ]

unfoldable pub resolve_at_height :
    Reader → Entries → Option Chunk → BlockRef → Result Failure Decision
resolve_at_height rb es replacement report = elim (in_batch replacement report.number) [
  | some chunk ↦ resolve_in_chunk rb es chunk report
  | none ↦ resolve_in_history rb es report
]

unfoldable pub resolve_finality :
    Reader → Entries → Option BlockRef → Option Chunk → ℕ → BlockRef → Result Failure Decision
resolve_finality rb es current replacement floor report = do
  post_head ← head_after es replacement
  let clamped = ltb post_head.number report.number
  let effective = if clamped then post_head else report
  elim (precheck current floor effective) [
    | some decision ↦ ok decision
    | none ↦ if clamped then ok (applied effective) else resolve_at_height rb es replacement report
  ]
