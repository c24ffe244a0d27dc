-- ===== src/Tests/ArchiveTests.antt =====
-- The theorems on the archive at two directories of a small archive.
use data_lib.Common.{reverse, ℕ, ◌≡◌, refl, String, none, some, List, [], ◌∷◌, arith}
use data_lib.Archive.Layout.{
  get_chunks_in_reversed_order, DataChunk, TopDir, yield_chunks, yield_tops, get_chunks,
  ChunkTracker, next_chunk, next_block,
}
use data_lib.Archive.Layout.Listing.{IsArchive, touched, all_chunks, get_chunks-touched}
use data_lib.Archive.Layout.Reversed.{get_chunks_in_reversed_order_reverses}
use data_lib.Archive.Layout.Tracker.{Follows, next_chunk-Follows}

abbrev chunk : ℕ → ℕ → String → ℕ → DataChunk
chunk first last hash top = record {
  first_block = first;
  last_block = last;
  last_hash = hash;
  top = top;
}

abbrev dirs : List TopDir
dirs =
    record { top = 0; chunks = chunk 0 4 "a4" 0 ∷ chunk 5 9 "a9" 0 ∷ [] }
    ∷ record { top = 10; chunks = chunk 10 14 "a14" 10 ∷ chunk 15 19 "a19" 10 ∷ [] }
    ∷ []

dirs-IsArchive : IsArchive 0 dirs
dirs-IsArchive = (
  omega arith,
  (omega arith, omega arith, (omega arith, omega arith, tt)),
  (omega arith, (omega arith, omega arith, (omega arith, omega arith, tt)), tt),
)

get_chunks-touched_example : get_chunks 7 (some 12) dirs ≡ touched 7 12 (all_chunks dirs)
get_chunks-touched_example = get_chunks-touched 7 (some 12) 0 dirs dirs-IsArchive (omega arith)

get_chunks_in_reversed_order_reverses_example :
    get_chunks_in_reversed_order 7 (some 12) dirs ≡ reverse (get_chunks 7 (some 12) dirs)
get_chunks_in_reversed_order_reverses_example =
    get_chunks_in_reversed_order_reverses 7 (some 12) 0 dirs dirs-IsArchive (omega arith)

two_of_them : get_chunks 7 (some 12) dirs ≡ chunk 5 9 "a9" 0 ∷ chunk 10 14 "a14" 10 ∷ []
unfolding get_chunks yield_tops yield_chunks
two_of_them = refl

-- The directory is full, so that the next chunk opens another.
abbrev tracker : ChunkTracker
tracker = record {
  top_dir_size = 2;
  base_chunk_hash = none;
  last_block_limit = 100;
  top = 10;
  chunks = chunk 10 14 "a14" 10 ∷ chunk 15 19 "a19" 10 ∷ [];
}

abbrev moved_on : ChunkTracker
moved_on = record tracker { top = 20; chunks = chunk 20 24 "a24" 20 ∷ [] }

hands_out : next_chunk 20 24 "a24" tracker ≡ some (chunk 20 24 "a24" 20, moved_on)
unfolding next_chunk next_block
hands_out = refl

next_chunk-Follows_example : Follows tracker (chunk 20 24 "a24" 20, moved_on)
next_chunk-Follows_example =
    next_chunk-Follows 20 24 "a24" tracker (chunk 20 24 "a24" 20, moved_on)
      (omega arith, omega arith, (omega arith, omega arith, tt)) hands_out
