-- ===== src/Hotblocks/Writer/Rollback/Boundary.antt =====
-- Where the search of `compute_rollback` ends: the last block of a stored chunk.
use data_lib.Common.{
  ℕ, ◌+◌, ◌≤◌, ◌≡◌, ◌⊎◌, inl, inr, refl, sym, subst, String, true, false, ◌&&◌, Option, none, some,
  List, [], ◌∷◌, ◌++◌, reverse, arith, ltb, leb, ◌==◌, str_eq, eq_iff, ok, err, Bool-cases,
  reverse-cons,
}
use data_lib.Storage.Data.{BlockRef, Chunk, first_block, last_block, last_block_hash}
use data_lib.Storage.Chunks.{Entries, Items, next_chunks, up_to}
use data_lib.Storage.Chunks.Tiling.{IsTiled, LeadsTo, Continues}
use data_lib.Storage.Tx.Fork.{starting_below}
use data_lib.Hotblocks.Writer.Admission.{starting_below-none}
use data_lib.Hotblocks.Writer.Rollback.{search_boundary, skip_above, peek_below}

abbrev pub Stored : Chunk → Entries → Type 0
Stored c [] = ⊥
Stored c (e ∷ es) = (e.1 ≡ c) ⊎ Stored c es

abbrev pub Yielded : Chunk → Items → Type 0
Yielded c [] = ⊥
Yielded c (i ∷ is) = (i ≡ ok c) ⊎ Yielded c is

pub next_chunks-Stored :
    (c : Chunk) (from : ℕ) (to : Option ℕ) (es : Entries)
    → Yielded c (next_chunks from to es)
    → Stored c es
unfolding next_chunks
next_chunks-Stored c from to [] y = y
next_chunks-Stored c from to (e ∷ es) y = ground (arith, next_chunks-Stored c from to es)

pub Stored-append : (c : Chunk) (es fs : Entries) → Stored c (es ++ fs) → Stored c es ⊎ Stored c fs
Stored-append c [] fs s = inr s
Stored-append c (e ∷ es) fs (inl s) = inl (inl s)
Stored-append c (e ∷ es) fs (inr s) = elim (Stored-append c es fs s) [
  | inl t ↦ inl (inr t)
  | inr t ↦ inr t
]

pub Stored-reverse : (c : Chunk) (es : Entries) → Stored c (reverse es) → Stored c es
Stored-reverse c [] s = s
Stored-reverse c (e ∷ es) s = elim (Stored-append c (reverse es) (e ∷ []) (rw reverse-cons at s)) [
  | inl t ↦ inr (Stored-reverse c es t)
  | inr (inl t) ↦ inl t
  | inr (inr t) ↦ absurd t
]

pub up_to-Stored : (c : Chunk) (to : Option ℕ) (es : Entries) → Stored c (up_to to es) → Stored c es
unfolding up_to
up_to-Stored c none es s = s
up_to-Stored c (some n) [] s = s
up_to-Stored c (some n) (e ∷ es) s = elim (Bool-cases (leb e.0 n)) [
  | inl b ↦ ground (arith, up_to-Stored c (some n) es)
  | inr b ↦ absurd (ground arith)
]

pub search_boundary-Yielded :
    (items : Items) (prev : List BlockRef) (n : ℕ) (hash : String)
    → search_boundary items prev ≡ ok (some (n, hash))
    → (c : Chunk) × Yielded c items × (n ≡ last_block c + 1) × (hash ≡ last_block_hash c)
unfolding search_boundary
search_boundary-Yielded [] prev n hash h = absurd (ground arith)
search_boundary-Yielded (err e ∷ rest) prev n hash h = absurd (ground arith)
search_boundary-Yielded (ok head ∷ rest) prev n hash h =
    elim (Bool-cases (peek_below (last_block head) prev)) [
      | inl b ↦
          let (c, y, e, f) = search_boundary-Yielded rest prev n hash (ground arith) in
          (c, inr y, e, f)
      | inr b ↦ at (skip_above (last_block head) prev) refl b (search_boundary-Yielded rest)
    ]
  where
    at :
        (left : List BlockRef)
        → skip_above (last_block head) prev ≡ left
        → peek_below (last_block head) prev ≡ false
        → ((ps : List BlockRef) (m : ℕ) (x : String)
            → search_boundary rest ps ≡ ok (some (m, x))
            → (c : Chunk) × Yielded c rest × (m ≡ last_block c + 1) × (x ≡ last_block_hash c))
        → (c : Chunk) × Yielded c (ok head ∷ rest)
          × (n ≡ last_block c + 1)
          × (hash ≡ last_block_hash c)
    at [] e b ih = (head, inl refl, ground arith, ground arith)
    at (p ∷ left) e b ih =
        elim (Bool-cases ((p.number == last_block head) && str_eq p.hash (last_block_hash head))) [
          | inl same ↦ (
            head,
            inl refl,
            ground (arith, eq_iff p.hash (last_block_hash head)),
            ground (arith, eq_iff p.hash (last_block_hash head)),
          )
          | inr other ↦ let (c, y, q, f) = ih (p ∷ left) n hash (ground arith) in (c, inr y, q, f)
        ]

pub Stored-first :
    (c : Chunk) (e : ℕ × Chunk) (es : Entries)
    → IsTiled (e ∷ es)
    → Stored c (e ∷ es)
    → (first_block e.1 ≤ first_block c) × (first_block c ≤ last_block c)
Stored-first c e es t (inl q) = ground (arith, t.0)
Stored-first c e [] t (inr s) = absurd s
Stored-first c e (e' ∷ es) t (inr s) =
    let ih = Stored-first c e' es t.2 s in (omega (arith, ih.0, t.0.1, t.1.0), ih.1)

-- A chunk that continues a stored one is what the chunks that start below it lead to.
pub boundary-LeadsTo :
    (c d : Chunk) (es : Entries)
    → IsTiled es
    → Stored c es
    → Continues c d
    → LeadsTo (starting_below (first_block d) es) d
boundary-LeadsTo c d [] t s k = absurd s
boundary-LeadsTo c d (e ∷ []) t (inr s) k = absurd s
boundary-LeadsTo c d (e ∷ []) t (inl q) k =
    let k' : Continues e.1 d = subst (λ x. Continues x d) (sym q) k in
    let low : ltb (first_block e.1) (first_block d) ≡ true = ground (arith, t.0, k'.0) in rw low k'
boundary-LeadsTo c d (e ∷ e' ∷ es) t (inl q) k =
    let k' : Continues e.1 d = subst (λ x. Continues x d) (sym q) k in
    let low : ltb (first_block e.1) (first_block d) ≡ true = ground (arith, t.0, k'.0) in
    let gone = starting_below-none (first_block d) e' es t.2 (omega (arith, k'.0, t.1.0)) in
    rw (low, gone) k'
boundary-LeadsTo c d (e ∷ e' ∷ es) t (inr s) k =
    let ih = boundary-LeadsTo c d (e' ∷ es) t.2 s k in
    let f = Stored-first c e' es t.2 s in
    let low : ltb (first_block e.1) (first_block d) ≡ true = ground (arith, t.0, t.1.0, f, k.0) in
    let low' : ltb (first_block e'.1) (first_block d) ≡ true = ground (arith, f, k.0) in
    rw (low, low') (rw low' at ih)
