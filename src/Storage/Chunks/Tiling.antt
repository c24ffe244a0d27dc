-- ===== src/Storage/Chunks/Tiling.antt =====
-- The shape of a dataset's stored window: chunks that tile their range, each linked to the one below
-- by its parent hash. Facts about iteration over such a window.
use data_lib.Common.{
  some, Option, ◌⊎◌, inl, inr, ℕ, ◌+◌, ◌≤◌, ◌<◌, ◌≡◌, refl, none, [], ◌∷◌, ◌++◌, map, reverse,
  arith, Result, ok, All, All-append, reverse-cons,
}
use data_lib.Storage.Data.{Chunk, first_block, last_block, last_block_hash, parent_block_hash}
use data_lib.Storage.Failure.{Failure}
use data_lib.Storage.Chunks.{seek, list_chunks_reversed, list_chunks, Entries, next_chunks}

-- An entry as `write_chunk` makes it.
abbrev pub IsEntry : ℕ × Chunk → Type 0
IsEntry e = (e.0 ≡ last_block e.1) × (first_block e.1 ≤ last_block e.1)

-- The second chunk continues the first.
abbrev pub Continues : Chunk → Chunk → Type 0
Continues c d = (last_block c + 1 ≡ first_block d) × (last_block_hash c ≡ parent_block_hash d)

abbrev pub ContinuedBy : Chunk → Entries → Type 0
ContinuedBy c [] = Unit
ContinuedBy c (e ∷ rest) = Continues c e.1

abbrev pub IsTiled : Entries → Type 0
IsTiled [] = Unit
IsTiled (e ∷ rest) = IsEntry e × ContinuedBy e.1 rest × IsTiled rest

-- The last chunk, if there is one, is continued by the given chunk.
abbrev pub LeadsTo : Entries → Chunk → Type 0
LeadsTo [] d = Unit
LeadsTo (e ∷ []) d = Continues e.1 d
LeadsTo (e ∷ e' ∷ rest) d = LeadsTo (e' ∷ rest) d

pub IsTiled-snoc :
    (es : Entries) (e : ℕ × Chunk)
    → IsTiled es
    → LeadsTo es e.1
    → IsEntry e
    → IsTiled (es ++ e ∷ [])
IsTiled-snoc [] e t l v = (v, tt, tt)
IsTiled-snoc (a ∷ []) e t l v = (t.0, l, (v, tt, tt))
IsTiled-snoc (a ∷ b ∷ es) e t l v = (t.0, t.1, IsTiled-snoc (b ∷ es) e t.2 l v)

pub LeadsTo-snoc :
    (es : Entries) (e : ℕ × Chunk) (d : Chunk) → Continues e.1 d → LeadsTo (es ++ e ∷ []) d
LeadsTo-snoc [] e d c = c
LeadsTo-snoc (a ∷ []) e d c = c
LeadsTo-snoc (a ∷ b ∷ es) e d c = LeadsTo-snoc (b ∷ es) e d c

pub LeadsTo-last :
    (es : Entries) (e : ℕ × Chunk) (d : Chunk) → LeadsTo (es ++ e ∷ []) d → Continues e.1 d
LeadsTo-last [] e d c = c
LeadsTo-last (a ∷ []) e d c = c
LeadsTo-last (a ∷ b ∷ es) e d c = LeadsTo-last (b ∷ es) e d c

pub IsTiled-init :
    (es : Entries) (e : ℕ × Chunk)
    → IsTiled (es ++ e ∷ [])
    → IsTiled es × LeadsTo es e.1 × IsEntry e
IsTiled-init [] e t = (tt, tt, t.0)
IsTiled-init (a ∷ []) e t = ((t.0, tt, tt), t.1, t.2.0)
IsTiled-init (a ∷ b ∷ es) e t =
    let ih = IsTiled-init (b ∷ es) e t.2 in ((t.0, t.1, ih.0), ih.1, ih.2)

-- Below the chunk that a tiled window leads to, everything is below its first block.
pub LeadsTo-Below :
    (es : Entries) (d : Chunk)
    → IsTiled es
    → LeadsTo es d
    → All (λ e. (e.0 < first_block d) × (last_block e.1 < first_block d)) es
LeadsTo-Below [] d t l = tt
LeadsTo-Below (a ∷ []) d t l = (omega arith, tt)
LeadsTo-Below (a ∷ b ∷ es) d t l = let ih = LeadsTo-Below (b ∷ es) d t.2 l in (omega arith, ih)

pub IsTiled-IsEntry : (es : Entries) → IsTiled es → All IsEntry es
IsTiled-IsEntry [] t = tt
IsTiled-IsEntry (e ∷ es) t = (t.0, IsTiled-IsEntry es t.2)

abbrev pub item : ℕ × Chunk → Result Failure Chunk
item e = ok e.1

pub All-reverse : (es : Entries) → All IsEntry es → All IsEntry (reverse es)
All-reverse [] t = tt
All-reverse (e ∷ es) t =
    rw (reverse-cons e es) (All-append IsEntry (reverse es) (e ∷ []) (All-reverse es t.1) (t.0, tt))

-- Over well-formed entries the unbounded iteration meets no error and returns every chunk.
pub next_chunks_whole : (es : Entries) → All IsEntry es → next_chunks 0 none es ≡ map item es
unfolding next_chunks
next_chunks_whole [] t = refl
next_chunks_whole (e ∷ es) t = ground (arith, next_chunks_whole es t.1)

seek_zero : (es : Entries) → seek 0 es ≡ es
unfolding seek
seek_zero [] = refl
seek_zero (e ∷ es) = ground arith

-- The forward iteration over a tiled window.
pub list_chunks_whole : (es : Entries) → IsTiled es → list_chunks 0 none es ≡ map item es
unfolding list_chunks
list_chunks_whole es t = rw seek_zero (next_chunks_whole es (IsTiled-IsEntry es t))

-- The iteration from the last chunk down.
pub list_chunks_reversed_whole :
    (es : Entries) → IsTiled es → list_chunks_reversed 0 none es ≡ map item (reverse es)
unfolding list_chunks_reversed
list_chunks_reversed_whole es t =
    next_chunks_whole (reverse es) (All-reverse es (IsTiled-IsEntry es t))

abbrev pub last_chunk : Entries → Option Chunk
last_chunk [] = none
last_chunk (e ∷ []) = some e.1
last_chunk (e ∷ e' ∷ es) = last_chunk (e' ∷ es)

abbrev pub first_chunk : Entries → Option Chunk
first_chunk [] = none
first_chunk (e ∷ es) = some e.1

pub last_chunk-snoc : (es : Entries) (e : ℕ × Chunk) → last_chunk (es ++ e ∷ []) ≡ some e.1
last_chunk-snoc [] e = refl
last_chunk-snoc (a ∷ []) e = refl
last_chunk-snoc (a ∷ b ∷ es) e = last_chunk-snoc (b ∷ es) e

pub snoc_cases :
    (es : Entries) → (es ≡ []) ⊎ ((xs : Entries) × (e : ℕ × Chunk) × (es ≡ xs ++ e ∷ []))
snoc_cases [] = inl refl
snoc_cases (a ∷ es) = elim (snoc_cases es) [
  | inl nil ↦ inr ([], a, rw nil)
  | inr (xs, e, split) ↦ inr (a ∷ xs, e, rw split)
]

pub last_chunk-cons :
    (e : ℕ × Chunk) (es : Entries) → (head : Chunk) × (last_chunk (e ∷ es) ≡ some head)
last_chunk-cons e [] = (e.1, refl)
last_chunk-cons e (e' ∷ es) = last_chunk-cons e' es
