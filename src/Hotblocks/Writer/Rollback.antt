-- ===== src/Hotblocks/Writer/Rollback.antt =====
-- `compute_rollback` of write_controller.rs: where ingestion resumes after the source reported a fork.
pub mod Boundary
pub mod Lands
use data_lib.Common.{
  ℕ, zero, suc, ◌+◌, ◌-◌, ◌≤◌, ◌<◌, ◌≡◌, ◌≢◌, ◌↔◌, ◌⊎◌, inl, inr, refl, sym, ap, subst, ◌∙◌, String,
  Bool, true, false, not, ◌&&◌, ◌||◌, Option, none, some, List, [], ◌∷◌, ◌++◌, map, reverse, arith,
  ltb, leb, ◌==◌, str_eq, eq_iff, if◌then◌else◌, Result, ok, err, ensure, ◌>>=◌, ◌>>◌, >>=-eq-ok,
  All, All-append, Bool-cases, Option-cases, min, max, length, get_elem?, append_assoc, append-nil,
  last?,
}
use data_lib.Storage.Data.{
  BlockRef, Chunk, first_block, last_block, last_block_hash, parent_block_hash,
}
use data_lib.Storage.Failure.{
  Failure, unapplicable_fork, hints_below_finalized_head, hint_conflicts_with_finalized_head,
  no_previous_blocks, unordered_previous_blocks, panicked,
}
use data_lib.Storage.Chunks.{Entries, Items, list_chunks, list_chunks_reversed}
use data_lib.Storage.Blocks.{next_item}
use data_lib.Storage.Tx.{Env, chunk_entries}
use data_lib.Hotblocks.Writer.{WriteController}

pub record Rollback : Type 0 where
  pub resume_from : ℕ
  pub expected_parent_hash : Option String
  pub reach_at_least : Option ℕ

-- `prev.windows(2).all(|s| s[0].number < s[1].number)`
unfoldable pub ascending : List BlockRef → Bool
ascending [] = true
ascending (a ∷ []) = true
ascending (a ∷ b ∷ rest) = ltb a.number b.number && ascending (b ∷ rest)

-- The blocks from the first one at or above a number on.
unfoldable pub from_number : ℕ → List BlockRef → List BlockRef
from_number n [] = []
from_number n (b ∷ rest) = if leb n b.number then b ∷ rest else from_number n rest

-- The hints from the finalized head on.
unfoldable pub hints_from : Option BlockRef → List BlockRef → Result Failure (List BlockRef)
hints_from none prev = ok prev
hints_from (some fin) prev = elim (from_number fin.number prev) [
  | [] ↦ err (unapplicable_fork hints_below_finalized_head)
  | b ∷ rest ↦ do
    ensure (if b.number == fin.number then str_eq b.hash fin.hash else true)
        (unapplicable_fork hint_conflicts_with_finalized_head)
    ok (b ∷ rest)
]

-- `prev_blocks.peek().map_or(false, |b| b.number < n)`
unfoldable pub peek_below : ℕ → List BlockRef → Bool
peek_below n [] = false
peek_below n (b ∷ rest) = ltb b.number n

-- `while prev_blocks.peek().map_or(false, |b| b.number > n) { prev_blocks.next(); }`
unfoldable pub skip_above : ℕ → List BlockRef → List BlockRef
skip_above n [] = []
skip_above n (b ∷ rest) = if ltb n b.number then skip_above n rest else b ∷ rest

-- The loop over the stored chunks and the hints, both from the last one down: the block to resume
-- from and its parent's hash, or `none` when no chunk's last block is a hint.
unfoldable pub search_boundary : Items → List BlockRef → Result Failure (Option (ℕ × String))
search_boundary [] prev = ok none
search_boundary (err e ∷ rest) prev = err e
search_boundary (ok head ∷ rest) prev =
    let left = skip_above (last_block head) prev in
    let skipped = search_boundary rest prev in
    let next = search_boundary rest left in
    if peek_below (last_block head) prev then skipped else elim left [
      | [] ↦ ok (some (last_block head + 1, last_block_hash head))
      | b ∷ _ ↦
          if (b.number == last_block head) && str_eq b.hash (last_block_hash head)
          then ok (some (b.number + 1, b.hash))
          else next
    ]

-- `finalized_head.filter(|fin| resume_from <= fin.number).map(|fin| fin.number)`
unfoldable pub reach : ℕ → Option BlockRef → Option ℕ
reach resume_from none = none
reach resume_from (some fin) = if leb resume_from fin.number then some fin.number else none

module _ {env : Env} where
  -- The physical start of the window, or the controller's own when nothing is stored.
  unfoldable pub fall_back : WriteController env → Result Failure (ℕ × Option String)
  fall_back c = do
    first ← next_item (list_chunks 0 none (chunk_entries env c.db))
    ok (elim first as (λ _. ℕ × Option String) [
      | none ↦ (c.start_block, c.parent_hash)
      | some chunk ↦ (first_block chunk, some (parent_block_hash chunk))
    ])

  unfoldable pub resume : List BlockRef → WriteController env → Result Failure (ℕ × Option String)
  resume prev c = elim (last? prev) [
    -- `unwrap`
    | none ↦ err panicked
    | some top ↦ do
      boundary ←
          search_boundary (list_chunks_reversed 0 (some top.number) (chunk_entries env c.db))
            (reverse prev)
      elim boundary [ none ↦ fall_back c | some (n, hash) ↦ ok (n, some hash) ]
  ]

  unfoldable pub compute_rollback : List BlockRef → WriteController env → Result Failure Rollback
  compute_rollback prev c = do
    ensure (elim prev [ [] ↦ false | b ∷ rest ↦ true ]) no_previous_blocks
    ensure (ascending prev) unordered_previous_blocks
    hints ← hints_from c.db.label.finalized_head prev
    (resume_from, hash) ← resume hints c
    ok (record {
      resume_from = resume_from;
      expected_parent_hash = hash;
      reach_at_least = reach resume_from c.db.label.finalized_head;
    })
