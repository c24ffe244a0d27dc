-- ===== src/Archive/Layout.antt =====
-- The listings of crates/archive/src/layout.rs. The file system is what its listings give: the top
-- directories in order, each with its chunks in order; parsing of names and I/O are left out.
pub mod Listing
pub mod Tracker
pub mod Reversed
use data_lib.Common.{
  ℕ, zero, suc, ◌+◌, ◌-◌, ◌*◌, ◌/◌, ◌%◌, ◌^◌, ◌≤◌, ◌<◌, ◌≡◌, ◌≢◌, ◌↔◌, ◌⊎◌, inl, inr, refl, sym, ap,
  subst, ◌∙◌, String, Bool, true, false, not, ◌&&◌, ◌||◌, Option, none, some, List, [], ◌∷◌, ◌++◌,
  map, reverse, arith, ltb, leb, ◌==◌, str_eq, eq_iff, if◌then◌else◌, Result, ok, err, ensure,
  ◌>>=◌, ◌>>◌, >>=-eq-ok, All, All-append, Bool-cases, Option-cases, min, max, length, get_elem?,
  append_assoc, append-nil, head?, last?,
}

pub record DataChunk : Type 0 where
  pub first_block : ℕ
  pub last_block : ℕ
  pub last_hash : String
  pub top : ℕ

pub record TopDir : Type 0 where
  pub top : ℕ
  pub chunks : List DataChunk

-- The chunks of one directory that are yielded, and whether the stream ends in it.
unfoldable pub yield_chunks : ℕ → ℕ → List DataChunk → List DataChunk × Bool
yield_chunks first_block last_block [] = ([], false)
yield_chunks first_block last_block (chunk ∷ chunks) =
    let (more, ended) = yield_chunks first_block last_block chunks in
    if ltb last_block chunk.first_block
    then ([], true)
    else if ltb chunk.last_block first_block
    then (more, ended)
    else (chunk ∷ more, ended)

-- `i + 1 < tops.len() && tops[i + 1] < first_block`
abbrev pub next_top_below : ℕ → List TopDir → Bool
next_top_below first_block [] = false
next_top_below first_block (next ∷ rest) = ltb next.top first_block

unfoldable pub yield_tops : ℕ → ℕ → List TopDir → List DataChunk
yield_tops first_block last_block [] = []
yield_tops first_block last_block (dir ∷ dirs) =
    let rest = yield_tops first_block last_block dirs in
    let (found, ended) = yield_chunks first_block last_block dir.chunks in
    if ltb last_block dir.top
    then []
    else if next_top_below first_block dirs
    then rest
    else if ended
    then found
    else found ++ rest

abbrev pub last_or_max : Option ℕ → ℕ
last_or_max none = 2 ^ 64 - 1
last_or_max (some last_block) = last_block

unfoldable pub get_chunks : ℕ → Option ℕ → List TopDir → List DataChunk
get_chunks first_block last_block dirs =
    if ltb (last_or_max last_block) first_block
    then []
    else yield_tops first_block (last_or_max last_block) dirs

-- The same from the last chunk down.
unfoldable pub yield_reversed_chunks : ℕ → ℕ → List DataChunk → List DataChunk × Bool
yield_reversed_chunks first_block last_block [] = ([], false)
yield_reversed_chunks first_block last_block (chunk ∷ chunks) =
    let (more, ended) = yield_reversed_chunks first_block last_block chunks in
    if ltb last_block chunk.first_block
    then (more, ended)
    else if ltb chunk.last_block first_block
    then ([], true)
    else (chunk ∷ more, ended)

unfoldable pub yield_reversed_tops : ℕ → ℕ → List TopDir → List DataChunk
yield_reversed_tops first_block last_block [] = []
yield_reversed_tops first_block last_block (dir ∷ dirs) =
    let rest = yield_reversed_tops first_block last_block dirs in
    let (found, ended) = yield_reversed_chunks first_block last_block (reverse dir.chunks) in
    if ltb last_block dir.top then rest else if ended then found else found ++ rest

unfoldable pub get_chunks_in_reversed_order : ℕ → Option ℕ → List TopDir → List DataChunk
get_chunks_in_reversed_order first_block last_block dirs =
    if ltb (last_or_max last_block) first_block
    then []
    else yield_reversed_tops first_block (last_or_max last_block) (reverse dirs)

pub record ChunkTracker : Type 0 where
  pub top_dir_size : ℕ
  pub base_chunk_hash : Option String
  pub last_block_limit : ℕ
  pub top : ℕ
  pub chunks : List DataChunk

unfoldable pub prev_chunk_hash : ChunkTracker → Option String
prev_chunk_hash t = elim (last? t.chunks) [ none ↦ t.base_chunk_hash | some c ↦ some c.last_hash ]

unfoldable pub next_block : ChunkTracker → ℕ
next_block t = elim (last? t.chunks) as (λ _. ℕ) [ none ↦ t.top | some c ↦ c.last_block + 1 ]

-- Its `assert!`s.
abbrev pub may_follow : ℕ → ℕ → ChunkTracker → Bool
may_follow first_block last_block t =
    (next_block t == first_block) && leb first_block last_block && leb last_block t.last_block_limit

abbrev pub add_chunk : ℕ → ℕ → String → ChunkTracker → DataChunk × ChunkTracker
add_chunk first_block last_block last_hash t =
    let chunk : DataChunk = record {
      first_block = first_block;
      last_block = last_block;
      last_hash = last_hash;
      top = t.top;
    } in
    (chunk, record t { chunks = t.chunks ++ chunk ∷ [] })

-- `none` is a failed assertion.
unfoldable pub next_chunk : ℕ → ℕ → String → ChunkTracker → Option (DataChunk × ChunkTracker)
next_chunk first_block last_block last_hash t =
    if may_follow first_block last_block t
    then some (
        add_chunk first_block last_block last_hash (
          if leb t.top_dir_size (length t.chunks)
          then record t { top = first_block; chunks = [] }
          else t))
    else none
