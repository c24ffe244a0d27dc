-- ===== src/Archive/Layout/Tracker.antt =====
-- `ChunkTracker::next_chunk` of crates/archive/src/layout.rs: where the next chunk goes.
use data_lib.Common.{
  length-append, last?-append, ℕ, ◌+◌, ◌≤◌, ◌≡◌, refl, ap, subst, ◌∙◌, String, Bool, true, false,
  Option, none, some, List, [], ◌∷◌, ◌++◌, arith, leb, max, length, last?,
}
use data_lib.Archive.Layout
use data_lib.Archive.Layout.{
  DataChunk, ChunkTracker, prev_chunk_hash, next_chunk, may_follow, add_chunk,
}
use data_lib.Archive.Layout.Listing.{AreOrdered, end_of, end_of_above}

AreOrdered-append :
    (low : ℕ) (cs : List DataChunk) (c : DataChunk)
    → AreOrdered low cs
    → end_of low cs ≤ c.first_block
    → c.first_block ≤ c.last_block
    → AreOrdered low (cs ++ c ∷ [])
AreOrdered-append low [] c h above order = (above, order, tt)
AreOrdered-append low (d ∷ ds) c h above order =
    (h.0, h.1, AreOrdered-append (d.last_block + 1) ds c h.2 above order)

abbrev after_last : ℕ → Option DataChunk → ℕ
after_last low none = low
after_last low (some c) = c.last_block + 1

end_of-last? : (low : ℕ) (cs : List DataChunk) → end_of low cs ≡ after_last low (last? cs)
end_of-last? low [] = refl
end_of-last? low (c ∷ []) = refl
end_of-last? low (c ∷ d ∷ ds) = end_of-last? (c.last_block + 1) (d ∷ ds) ∙ same (last?-some d ds)
  where
    last?-some : (d : DataChunk) (ds : List DataChunk) → (x : DataChunk) × (last? (d ∷ ds) ≡ some x)
    last?-some d [] = (d, refl)
    last?-some d (e ∷ es) = last?-some e es

    same :
        (x : DataChunk) × (last? (d ∷ ds) ≡ some x)
        → after_last (c.last_block + 1) (last? (d ∷ ds)) ≡ after_last low (last? (d ∷ ds))
    same (x, e) = rw e refl

-- The directory that is being filled.
abbrev pub IsFilling : ChunkTracker → Type 0
IsFilling t = AreOrdered t.top t.chunks

-- What a chunk and the tracker after it promise.
abbrev pub Follows : ChunkTracker → DataChunk × ChunkTracker → Type 0
Follows t (c, t') =
    (c.first_block ≡ Layout.next_block t)
    × (c.first_block ≤ c.last_block)
    × (c.last_block ≤ t.last_block_limit)
    × (c.top ≤ c.first_block)
    × IsFilling t'
    × (Layout.next_block t' ≡ c.last_block + 1)
    × (prev_chunk_hash t' ≡ some c.last_hash)
    × (length t'.chunks ≤ max 1 t.top_dir_size)

-- A directory that may take the chunk: the one at hand, or an empty one at the chunk's first block.
abbrev MayTake : ChunkTracker → ℕ → ChunkTracker → Type 0
MayTake t first_block u =
    IsFilling u
    × (end_of u.top u.chunks ≤ first_block)
    × (u.top ≤ first_block)
    × (length u.chunks + 1 ≤ max 1 t.top_dir_size)

add_chunk-Follows :
    (t u : ChunkTracker) (first_block last_block : ℕ) (last_hash : String)
    → may_follow first_block last_block t ≡ true
    → MayTake t first_block u
    → Follows t (add_chunk first_block last_block last_hash u)
unfolding Layout.next_block prev_chunk_hash
add_chunk-Follows t u first_block last_block last_hash m h = (
  ground (arith, m),
  ground (arith, m),
  ground (arith, m),
  h.2,
  AreOrdered-append u.top u.chunks chunk h.0 h.1 (ground (arith, m)),
  ap (after_last u.top) (last?-append u.chunks chunk),
  ap (λ o. elim o as (λ _. Option String) [ none ↦ u.base_chunk_hash | some c ↦ some c.last_hash ])
      (last?-append u.chunks chunk),
  omega (arith, length-append u.chunks (chunk ∷ []), h.3),
)
  where
    chunk : DataChunk
    chunk = (add_chunk first_block last_block last_hash u).0

-- A chunk that the tracker hands out starts at its next block, stays within its limit and lies in a directory
-- named by a block at or below it; the tracker goes on right after the chunk and remembers its hash,
-- with the chunks of the directory in order and no more of them than its size allows, or one.
pub next_chunk-Follows :
    (first_block last_block : ℕ) (last_hash : String) (t : ChunkTracker)
    (r : DataChunk × ChunkTracker)
    → IsFilling t
    → next_chunk first_block last_block last_hash t ≡ some r
    → Follows t r
unfolding next_chunk Layout.next_block
next_chunk-Follows first_block last_block last_hash t r filling h = at _ refl _ refl
  where
    fresh : ChunkTracker
    fresh = record t { top = first_block; chunks = [] }

    place : end_of t.top t.chunks ≡ Layout.next_block t
    place = end_of-last? t.top t.chunks

    at :
        (may : Bool)
        → may_follow first_block last_block t ≡ may
        → (full : Bool) → leb t.top_dir_size (length t.chunks) ≡ full
        → Follows t r
    at false m full q = absurd cc
      where
        refuses : next_chunk first_block last_block last_hash t ≡ none
        refuses = rw (next_chunk, m) refl
    at true m true q = subst (Follows t) same (
        add_chunk-Follows t fresh first_block last_block last_hash m
          (tt, omega arith, omega arith, omega arith))
      where
        answers :
            next_chunk first_block last_block last_hash t
            ≡ some (add_chunk first_block last_block last_hash fresh)
        answers = rw (next_chunk, m, q) refl

        same : add_chunk first_block last_block last_hash fresh ≡ r
        same = cc
    at true m false q = subst (Follows t) same (
        add_chunk-Follows t t first_block last_block last_hash m (
          filling,
          ground (arith, m, place),
          ground (arith, m, place, end_of_above t.top t.chunks filling),
          ground (arith, q),
        ))
      where
        answers :
            next_chunk first_block last_block last_hash t
            ≡ some (add_chunk first_block last_block last_hash t)
        answers = rw (next_chunk, m, q) refl

        same : add_chunk first_block last_block last_hash t ≡ r
        same = cc
