-- ===== src/Archive/Layout/Reversed.antt =====
-- `get_chunks_in_reversed_order` of crates/archive/src/layout.rs beside `get_chunks`.
use data_lib.Common.{
  reverse-append, ge→ltb, reverse-cons, ltb→lt, ℕ, suc, ◌+◌, ◌≤◌, ◌<◌, ◌≡◌, inl, inr, refl, sym, ap,
  subst, ◌∙◌, Bool, true, false, Option, List, [], ◌∷◌, ◌++◌, reverse, arith, ltb, Bool-cases,
  append_assoc, append-nil,
}
use data_lib.Archive.Layout.{
  DataChunk, TopDir, yield_reversed_chunks, yield_reversed_tops, last_or_max, get_chunks,
  get_chunks_in_reversed_order,
}
use data_lib.Archive.Layout.Listing.{
  overlaps, touched, all_chunks, AreOrdered, end_of, IsArchive, touched-append, touched_past,
  get_chunks-touched,
}

-- Descending chunks between two blocks.
abbrev AreDescending : ℕ → ℕ → List DataChunk → Type 0
AreDescending high low [] = low ≤ high
AreDescending high low (c ∷ cs) =
    (c.last_block < high) × (c.first_block ≤ c.last_block) × AreDescending c.first_block low cs

AreDescending-append :
    (high low : ℕ) (cs : List DataChunk) (c : DataChunk)
    → AreDescending high (c.last_block + 1) cs
    → low ≤ c.first_block
    → c.first_block ≤ c.last_block
    → AreDescending high low (cs ++ c ∷ [])
AreDescending-append high low [] c h above order = (omega (arith, h), order, above)
AreDescending-append high low (d ∷ ds) c h above order =
    (h.0, h.1, AreDescending-append d.first_block low ds c h.2 above order)

reverse-AreDescending :
    (low : ℕ) (cs : List DataChunk)
    → AreOrdered low cs
    → AreDescending (end_of low cs) low (reverse cs)
reverse-AreDescending low [] h = omega arith
reverse-AreDescending low (c ∷ cs) h =
    subst (AreDescending (end_of (c.last_block + 1) cs) low) (sym (reverse-cons c cs)) (
      AreDescending-append (end_of (c.last_block + 1) cs) low (reverse cs) c
        (reverse-AreDescending (c.last_block + 1) cs h.2) h.0 h.1)

descending_bounds : (high low : ℕ) (cs : List DataChunk) → AreDescending high low cs → low ≤ high
descending_bounds high low [] h = h
descending_bounds high low (c ∷ cs) h =
    omega (arith, h.0, h.1, descending_bounds c.first_block low cs h.2)

touched_under :
    (a b high low : ℕ) (cs : List DataChunk)
    → AreDescending high low cs
    → high ≤ a
    → touched a b cs ≡ []
touched_under a b high low [] h k = refl
touched_under a b high low (c ∷ cs) h k =
    rw under (touched_under a b c.first_block low cs h.2 (omega (arith, h.0, h.1, k)))
  where
    under : overlaps a b c ≡ false
    under = ground (arith, h.0, k)

yield_reversed_chunks-touched :
    (a b high low : ℕ) (cs : List DataChunk)
    → AreDescending high low cs
    → ((yield_reversed_chunks a b cs).0 ≡ touched a b cs)
      × ((yield_reversed_chunks a b cs).1 ≡ true → low ≤ a)
unfolding yield_reversed_chunks
yield_reversed_chunks-touched a b high low [] h = (refl, λ q. absurd cc)
yield_reversed_chunks-touched a b high low (c ∷ cs) h =
    at _ refl _ refl (yield_reversed_chunks-touched a b c.first_block low cs h.2)
  where
    tail : List DataChunk × Bool
    tail = yield_reversed_chunks a b cs

    at :
        (past : Bool)
        → ltb b c.first_block ≡ past
        → (before : Bool) → ltb c.last_block a ≡ before
        → (tail.0 ≡ touched a b cs) × (tail.1 ≡ true → low ≤ a)
        → ((yield_reversed_chunks a b (c ∷ cs)).0 ≡ touched a b (c ∷ cs))
          × ((yield_reversed_chunks a b (c ∷ cs)).1 ≡ true → low ≤ a)
    at true p before q ih = rw (yield_reversed_chunks, p, misses) ih
      where
        misses : overlaps a b c ≡ false
        misses = ground (arith, p)
    at false p true q ih =
        rw (yield_reversed_chunks, p, q)
          (
            sym (
                touched_under a b (suc c.last_block) low (c ∷ cs) (omega arith, h.1, h.2)
                  (ltb→lt c.last_block a q)),
            λ z.
                omega
                  (arith, descending_bounds c.first_block low cs h.2, h.1, ltb→lt c.last_block a q),
          )
    at false p false q ih = rw (yield_reversed_chunks, p, q, hits) (ap (λ x. c ∷ x) ih.0, ih.1)
      where
        hits : overlaps a b c ≡ true
        hits = ground (arith, p, q)

-- Directories from the last one down, between two blocks.
abbrev AreStacked : ℕ → ℕ → List TopDir → Type 0
AreStacked high low [] = low ≤ high
AreStacked high low (d ∷ ds) =
    AreOrdered d.top d.chunks × (end_of d.top d.chunks ≤ high) × AreStacked d.top low ds

AreStacked-append :
    (high low : ℕ) (ds : List TopDir) (d : TopDir)
    → AreStacked high (end_of d.top d.chunks) ds
    → AreOrdered d.top d.chunks
    → low ≤ d.top
    → AreStacked high low (ds ++ d ∷ [])
AreStacked-append high low [] d h order above = (order, h, above)
AreStacked-append high low (e ∷ es) d h order above =
    (h.0, h.1, AreStacked-append e.top low es d h.2 order above)

abbrev archive_end : ℕ → List TopDir → ℕ
archive_end low [] = low
archive_end low (d ∷ ds) = archive_end (end_of d.top d.chunks) ds

reverse-AreStacked :
    (low : ℕ) (ds : List TopDir)
    → IsArchive low ds
    → AreStacked (archive_end low ds) low (reverse ds)
reverse-AreStacked low [] h = omega arith
reverse-AreStacked low (d ∷ ds) h =
    subst (AreStacked (archive_end (end_of d.top d.chunks) ds) low) (sym (reverse-cons d ds)) (
      AreStacked-append (archive_end (end_of d.top d.chunks) ds) low (reverse ds) d
        (reverse-AreStacked (end_of d.top d.chunks) ds h.2) h.1 h.0)

abbrev all_reversed : List TopDir → List DataChunk
all_reversed [] = []
all_reversed (d ∷ ds) = reverse d.chunks ++ all_reversed ds

all_touched_under :
    (a b high low : ℕ) (ds : List TopDir)
    → AreStacked high low ds
    → high ≤ a
    → touched a b (all_reversed ds) ≡ []
all_touched_under a b high low [] h k = refl
all_touched_under a b high low (d ∷ ds) h k =
    touched-append a b (reverse d.chunks) (all_reversed ds)
    ∙ ap (λ x. x ++ touched a b (all_reversed ds))
        (touched_under a b (end_of d.top d.chunks) d.top (reverse d.chunks) descending
          (omega (arith, h.1, k)))
    ∙ all_touched_under a b d.top low ds h.2 (
        omega (
          arith,
          descending_bounds (end_of d.top d.chunks) d.top (reverse d.chunks) descending,
          h.1,
          k,
        ))
  where
    descending : AreDescending (end_of d.top d.chunks) d.top (reverse d.chunks)
    descending = reverse-AreDescending d.top d.chunks h.0

touched-reverse :
    (a b : ℕ) (cs : List DataChunk) → touched a b (reverse cs) ≡ reverse (touched a b cs)
touched-reverse a b [] = refl
touched-reverse a b (c ∷ cs) =
    ap (touched a b) (reverse-cons c cs)
    ∙ touched-append a b (reverse cs) (c ∷ [])
    ∙ ap (λ x. x ++ touched a b (c ∷ [])) (touched-reverse a b cs)
    ∙ last_one
  where
    last_one : reverse (touched a b cs) ++ touched a b (c ∷ []) ≡ reverse (touched a b (c ∷ cs))
    last_one = elim (Bool-cases (overlaps a b c)) [
      | inl e ↦ rw e (sym (reverse-cons c (touched a b cs)))
      | inr e ↦ rw e (append-nil (reverse (touched a b cs)))
    ]

yield_reversed_tops-touched :
    (a b high low : ℕ) (ds : List TopDir)
    → AreStacked high low ds
    → yield_reversed_tops a b ds ≡ touched a b (all_reversed ds)
unfolding yield_reversed_tops
yield_reversed_tops-touched a b high low [] h = refl
yield_reversed_tops-touched a b high low (d ∷ ds) h =
    at _ refl _ refl
      (yield_reversed_chunks-touched a b (end_of d.top d.chunks) d.top (reverse d.chunks)
        (reverse-AreDescending d.top d.chunks h.0))
      (yield_reversed_tops-touched a b d.top low ds h.2)
  where
    found : List DataChunk × Bool
    found = yield_reversed_chunks a b (reverse d.chunks)

    none_here : ltb b d.top ≡ true → touched a b (reverse d.chunks) ≡ []
    none_here p =
        touched-reverse a b d.chunks
        ∙ ap reverse (touched_past a b d.top d.chunks h.0 (ltb→lt b d.top p))

    at :
        (past : Bool)
        → ltb b d.top ≡ past
        → (ended : Bool) → found.1 ≡ ended
        → (found.0 ≡ touched a b (reverse d.chunks)) × (found.1 ≡ true → d.top ≤ a)
        → yield_reversed_tops a b ds ≡ touched a b (all_reversed ds)
        → yield_reversed_tops a b (d ∷ ds) ≡ touched a b (all_reversed (d ∷ ds))
    at true p ended e f ih =
        rw (yield_reversed_tops, p)
          (ih
            ∙ ap (λ x. x ++ touched a b (all_reversed ds)) (sym (none_here p))
            ∙ sym (touched-append a b (reverse d.chunks) (all_reversed ds)))
    at false p true e f ih =
        rw (yield_reversed_tops, p, e)
          (f.0
            ∙ sym (append-nil (touched a b (reverse d.chunks)))
            ∙ ap (λ x. touched a b (reverse d.chunks) ++ x)
                (sym (all_touched_under a b d.top low ds h.2 (f.1 e)))
            ∙ sym (touched-append a b (reverse d.chunks) (all_reversed ds)))
    at false p false e f ih =
        rw (yield_reversed_tops, p, e)
          (ap (λ x. x ++ yield_reversed_tops a b ds) f.0
            ∙ ap (λ x. touched a b (reverse d.chunks) ++ x) ih
            ∙ sym (touched-append a b (reverse d.chunks) (all_reversed ds)))

all_reversed-append :
    (xs ys : List TopDir) → all_reversed (xs ++ ys) ≡ all_reversed xs ++ all_reversed ys
all_reversed-append [] ys = refl
all_reversed-append (d ∷ ds) ys =
    ap (λ x. reverse d.chunks ++ x) (all_reversed-append ds ys)
    ∙ sym (append_assoc (reverse d.chunks) (all_reversed ds) (all_reversed ys))

all_reversed-reverse : (ds : List TopDir) → all_reversed (reverse ds) ≡ reverse (all_chunks ds)
all_reversed-reverse [] = refl
all_reversed-reverse (d ∷ ds) =
    ap all_reversed (reverse-cons d ds)
    ∙ all_reversed-append (reverse ds) (d ∷ [])
    ∙ ap (λ x. x ++ (reverse d.chunks ++ [])) (all_reversed-reverse ds)
    ∙ ap (λ x. reverse (all_chunks ds) ++ x) (append-nil (reverse d.chunks))
    ∙ sym (reverse-append d.chunks (all_chunks ds))

-- In an archive whose directories and chunks are in order, the reversed order yields what `get_chunks`
-- yields, from its end.
pub get_chunks_in_reversed_order_reverses :
    (first_block : ℕ) (last_block : Option ℕ) (low : ℕ) (dirs : List TopDir)
    → IsArchive low dirs
    → first_block ≤ last_or_max last_block
    → get_chunks_in_reversed_order first_block last_block dirs
      ≡ reverse (get_chunks first_block last_block dirs)
unfolding get_chunks_in_reversed_order
get_chunks_in_reversed_order_reverses first_block last_block low dirs h order =
    rw (ge→ltb last first_block order) (
      yield_reversed_tops-touched first_block last (archive_end low dirs) low (reverse dirs)
        (reverse-AreStacked low dirs h)
      ∙ ap (touched first_block last) (all_reversed-reverse dirs)
      ∙ touched-reverse first_block last (all_chunks dirs)
      ∙ ap reverse (sym (get_chunks-touched first_block last_block low dirs h order)))
  where
    last : ℕ
    last = last_or_max last_block
