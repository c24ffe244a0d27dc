-- ===== src/Archive/Layout/Listing.antt =====
-- What `get_chunks` of crates/archive/src/layout.rs yields.
use data_lib.Common.{
  ltb→lt, ge→ltb, ℕ, ◌+◌, ◌≤◌, ◌<◌, ◌≡◌, inl, inr, refl, sym, ap, ◌∙◌, Bool, true, false, ◌&&◌,
  Option, List, [], ◌∷◌, ◌++◌, arith, ltb, leb, if◌then◌else◌, Bool-cases, append-nil,
}
use data_lib.Archive.Layout.{
  DataChunk, TopDir, yield_chunks, next_top_below, yield_tops, last_or_max, get_chunks,
}

abbrev pub overlaps : ℕ → ℕ → DataChunk → Bool
overlaps first_block last_block c = leb c.first_block last_block && leb first_block c.last_block

-- The chunks that a range touches, and all chunks in order.
abbrev pub touched : ℕ → ℕ → List DataChunk → List DataChunk
touched first_block last_block [] = []
touched first_block last_block (c ∷ cs) =
    if overlaps first_block last_block c
    then c ∷ touched first_block last_block cs
    else touched first_block last_block cs

abbrev pub all_chunks : List TopDir → List DataChunk
all_chunks [] = []
all_chunks (d ∷ ds) = d.chunks ++ all_chunks ds

-- Ascending chunks from a block on, and where they end.
abbrev pub AreOrdered : ℕ → List DataChunk → Type 0
AreOrdered low [] = Unit
AreOrdered low (c ∷ cs) =
    (low ≤ c.first_block) × (c.first_block ≤ c.last_block) × AreOrdered (c.last_block + 1) cs

abbrev pub end_of : ℕ → List DataChunk → ℕ
end_of low [] = low
end_of low (c ∷ cs) = end_of (c.last_block + 1) cs

-- Each directory starts at or above the end of the one before, and its chunks at or above its name.
abbrev pub IsArchive : ℕ → List TopDir → Type 0
IsArchive low [] = Unit
IsArchive low (d ∷ ds) =
    (low ≤ d.top) × AreOrdered d.top d.chunks × IsArchive (end_of d.top d.chunks) ds

pub end_of_above : (low : ℕ) (cs : List DataChunk) → AreOrdered low cs → low ≤ end_of low cs
end_of_above low [] h = omega arith
end_of_above low (c ∷ cs) h = omega (arith, h.0, h.1, end_of_above (c.last_block + 1) cs h.2)

pub touched-append :
    (a b : ℕ) (xs ys : List DataChunk) → touched a b (xs ++ ys) ≡ touched a b xs ++ touched a b ys
touched-append a b [] ys = refl
touched-append a b (c ∷ cs) ys = elim (Bool-cases (overlaps a b c)) [
  | inl e ↦ rw e (ap (λ x. c ∷ x) (touched-append a b cs ys))
  | inr e ↦ rw e (touched-append a b cs ys)
]

pub touched_past :
    (a b low : ℕ) (cs : List DataChunk) → AreOrdered low cs → b < low → touched a b cs ≡ []
touched_past a b low [] h k = refl
touched_past a b low (c ∷ cs) h k =
    rw (past) (touched_past a b (c.last_block + 1) cs h.2 (omega (arith, h.0, h.1, k)))
  where
    past : overlaps a b c ≡ false
    past = ground (arith, h.0, k)

all_touched_past :
    (a b low : ℕ) (ds : List TopDir) → IsArchive low ds → b < low → touched a b (all_chunks ds) ≡ []
all_touched_past a b low [] h k = refl
all_touched_past a b low (d ∷ ds) h k =
    touched-append a b d.chunks (all_chunks ds)
    ∙ ap (λ x. x ++ touched a b (all_chunks ds))
        (touched_past a b d.top d.chunks h.1 (omega (arith, h.0, k)))
    ∙ all_touched_past a b (end_of d.top d.chunks) ds h.2
        (omega (arith, end_of_above d.top d.chunks h.1, h.0, k))

touched_before :
    (a b low : ℕ) (cs : List DataChunk)
    → AreOrdered low cs
    → end_of low cs ≤ a
    → touched a b cs ≡ []
touched_before a b low [] h k = refl
touched_before a b low (c ∷ cs) h k = rw before (touched_before a b (c.last_block + 1) cs h.2 k)
  where
    before : overlaps a b c ≡ false
    before = ground (arith, end_of_above (c.last_block + 1) cs h.2, k)

-- A stream that ends in a directory has passed its range there.
yield_chunks-touched :
    (a b low : ℕ) (cs : List DataChunk)
    → AreOrdered low cs
    → ((yield_chunks a b cs).0 ≡ touched a b cs)
      × ((yield_chunks a b cs).1 ≡ true → b < end_of low cs)
unfolding yield_chunks
yield_chunks-touched a b low [] h = (refl, λ q. absurd cc)
yield_chunks-touched a b low (c ∷ cs) h =
    at _ refl _ refl (yield_chunks-touched a b (c.last_block + 1) cs h.2)
  where
    tail : List DataChunk × Bool
    tail = yield_chunks a b cs

    at :
        (past : Bool)
        → ltb b c.first_block ≡ past
        → (before : Bool) → ltb c.last_block a ≡ before
        → (tail.0 ≡ touched a b cs) × (tail.1 ≡ true → b < end_of (c.last_block + 1) cs)
        → ((yield_chunks a b (c ∷ cs)).0 ≡ touched a b (c ∷ cs))
          × ((yield_chunks a b (c ∷ cs)).1 ≡ true → b < end_of (c.last_block + 1) cs)
    at true p before q ih =
        rw (yield_chunks, p)
          (
            sym (touched_past a b c.first_block (c ∷ cs) (omega arith, h.1, h.2) (ltb→lt b _ p)),
            λ z. omega (arith, end_of_above (c.last_block + 1) cs h.2, ltb→lt b _ p, h.1),
          )
    at false p true q ih = rw (yield_chunks, p, q, misses) ih
      where
        misses : overlaps a b c ≡ false
        misses = ground (arith, q)
    at false p false q ih = rw (yield_chunks, p, q, hits) (ap (λ x. c ∷ x) ih.0, ih.1)
      where
        hits : overlaps a b c ≡ true
        hits = ground (arith, p, q)

yield_tops-touched :
    (a b low : ℕ) (ds : List TopDir)
    → IsArchive low ds
    → yield_tops a b ds ≡ touched a b (all_chunks ds)
unfolding yield_tops
yield_tops-touched a b low [] h = refl
yield_tops-touched a b low (d ∷ ds) h =
    at _ refl _ refl _ refl (yield_chunks-touched a b d.top d.chunks h.1)
      (yield_tops-touched a b (end_of d.top d.chunks) ds h.2)
  where
    found : List DataChunk × Bool
    found = yield_chunks a b d.chunks

    skipped :
        (es : List TopDir)
        → IsArchive (end_of d.top d.chunks) es
        → next_top_below a es ≡ true
        → touched a b d.chunks ≡ []
    skipped [] k q = absurd cc
    skipped (e ∷ es) k q =
        touched_before a b d.top d.chunks h.1 (omega (arith, k.0, ltb→lt e.top a q))

    at :
        (past : Bool)
        → ltb b d.top ≡ past
        → (below : Bool) → next_top_below a ds ≡ below
        → (ended : Bool) → found.1 ≡ ended
        → (found.0 ≡ touched a b d.chunks) × (found.1 ≡ true → b < end_of d.top d.chunks)
        → yield_tops a b ds ≡ touched a b (all_chunks ds)
        → yield_tops a b (d ∷ ds) ≡ touched a b (all_chunks (d ∷ ds))
    at true p below q ended e f ih =
        rw (yield_tops, p)
          (sym (all_touched_past a b d.top (d ∷ ds) (omega arith, h.1, h.2) (ltb→lt b _ p)))
    at false p true q ended e f ih =
        rw (yield_tops, p, q)
          (ih
            ∙ ap (λ x. x ++ touched a b (all_chunks ds)) (sym (skipped ds h.2 q))
            ∙ sym (touched-append a b d.chunks (all_chunks ds)))
    at false p false q true e f ih =
        rw (yield_tops, p, q, e)
          (f.0
            ∙ sym (append-nil (touched a b d.chunks))
            ∙ ap (λ x. touched a b d.chunks ++ x)
                (sym (all_touched_past a b (end_of d.top d.chunks) ds h.2 (f.1 e)))
            ∙ sym (touched-append a b d.chunks (all_chunks ds)))
    at false p false q false e f ih =
        rw (yield_tops, p, q, e)
          (ap (λ x. x ++ yield_tops a b ds) f.0
            ∙ ap (λ x. touched a b d.chunks ++ x) ih
            ∙ sym (touched-append a b d.chunks (all_chunks ds)))

-- In an archive whose directories and chunks are in order, `get_chunks` yields the chunks that the range
-- touches, all of them and in order, although it skips directories and stops early.
pub get_chunks-touched :
    (first_block : ℕ) (last_block : Option ℕ) (low : ℕ) (dirs : List TopDir)
    → IsArchive low dirs
    → first_block ≤ last_or_max last_block
    → get_chunks first_block last_block dirs
      ≡ touched first_block (last_or_max last_block) (all_chunks dirs)
unfolding get_chunks
get_chunks-touched first_block last_block low dirs h order =
    rw (ge→ltb (last_or_max last_block) first_block order)
      (yield_tops-touched first_block (last_or_max last_block) low dirs h)
