-- ===== src/Bds/Chain/Clean.antt =====
-- `clean` of crates/bds/src/chain.rs: which blocks leave the memory.
use data_lib.Common.{
  ℕ, zero, suc, ◌-◌, ◌≤◌, ◌<◌, ◌≡◌, refl, sym, ap, subst, ◌∙◌, Bool, true, false, Option, none,
  some, arith, if◌then◌else◌, length, last?,
}
use data_lib.Bds.Chain.{Chain}
use data_lib.Bds.Chain.Linked.{IsLinked, Fits}
use data_lib.Bds.Chain.Finalize.{
  pop_front, pop_fronts, at_front, clean_front, clean, AreAligned-pop_front, AreAligned-pop_block,
  AreLinked-pop_front, length-pop_front,
}

-- The number of blocks that are gone, from the front, all of them stored.
abbrev pub Cleaned : ℕ → Chain → Bool × Chain → Type 0
Cleaned most c (dropped, c') =
    (gone : ℕ) × (gone ≤ most)
    × IsLinked c'
    × (c'.blocks ≡ pop_fronts gone c.blocks)
    × ((i : ℕ) → i < gone → at_front c.stored i ≡ some true)

abbrev without_front : Chain → Chain
without_front c = record c {
  stored = pop_front c.stored;
  blocks = pop_front c.blocks;
  chain = if c.fin then c.chain else pop_front c.chain;
}

without_front-IsLinked : (c : Chain) → IsLinked c → IsLinked (without_front c)
without_front-IsLinked c s = at c.fin refl
  where
    flagged : length (pop_front c.stored) ≡ length (pop_front c.blocks)
    flagged =
        length-pop_front c.stored ∙ ap (λ n. n - 1) s.flagged ∙ sym (length-pop_front c.blocks)

    fits : c.fin ≡ false → length (pop_front c.chain) ≡ length (pop_front c.blocks)
    fits e =
        length-pop_front c.chain
        ∙ ap (λ n. n - 1) (subst (λ f. Fits f c.chain c.blocks) e s.fits)
        ∙ sym (length-pop_front c.blocks)

    at : (f : Bool) → c.fin ≡ f → IsLinked (without_front c)
    at true e = record {
      linked = AreLinked-pop_front c.blocks s.linked;
      aligned = rw e (AreAligned-pop_block c.chain c.blocks s.aligned);
      fits = rw e (subst (λ f. Fits f c.chain c.blocks) e s.fits);
      flagged = flagged;
    }
    at false e = record {
      linked = AreLinked-pop_front c.blocks s.linked;
      aligned = rw e (
          AreAligned-pop_block (pop_front c.chain) c.blocks
            (AreAligned-pop_front c.chain c.blocks s.aligned));
      fits = rw e (fits e);
      flagged = flagged;
    }

clean_front-Cleaned : (n : ℕ) (c : Chain) → IsLinked c → Cleaned n c (clean_front n c)
unfolding clean_front
clean_front-Cleaned zero c s = (0, omega arith, s, refl, λ i h. absurd (omega (arith, h)))
clean_front-Cleaned (suc n) c s =
    at (last? c.stored) refl (clean_front-Cleaned n (without_front c) (without_front-IsLinked c s))
  where
    nothing : Cleaned (suc n) c (false, c)
    nothing = (0, omega arith, s, refl, λ i h. absurd (omega (arith, h)))

    more :
        (g : ℕ)
        → last? c.stored ≡ some true
        → ((i : ℕ) → i < g → at_front (pop_front c.stored) i ≡ some true)
        → (i : ℕ) → i < suc g
        → at_front c.stored i ≡ some true
    more g e k zero h = e
    more g e k (suc i) h = k i (omega (arith, h))

    at :
        (o : Option Bool)
        → last? c.stored ≡ o
        → Cleaned n (without_front c) (clean_front n (without_front c))
        → Cleaned (suc n) c (clean_front (suc n) c)
    at none e ih = rw (clean_front, e) nothing
    at (some false) e ih = rw (clean_front, e) nothing
    at (some true) e (g, most, s', b, k) =
        rw (clean_front, e) (suc g, omega (arith, most), s', b, more g e k)

-- Cleaning a linked chain keeps it linked and drops blocks from the front only, each of them stored, and
-- no more than those beyond the size to keep.
pub clean-Cleaned : (c : Chain) → IsLinked c → Cleaned (length c.blocks - c.min_size) c (clean c)
unfolding clean
clean-Cleaned c s = clean_front-Cleaned (length c.blocks - c.min_size) c s
