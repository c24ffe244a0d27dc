-- ===== src/Bds/Chain/Linked.antt =====
-- `push` and `finalize_all` of crates/bds/src/chain.rs and the links between blocks.
use data_lib.Common.{
  ℕ, suc, ◌-◌, ◌<◌, ◌≡◌, inl, inr, refl, sym, ap, subst, ◌∙◌, Bool, true, false, some, List, [],
  ◌∷◌, ◌++◌, arith, eq_iff, Result, ok, err, Bool-cases, length, head?,
}
use data_lib.Storage.Data.{BlockRef}
use data_lib.Bds.Chain.{
  finalize_last, ChainBlock, block_ref, Chain, ChainError, pop_back, is_parent, append_block,
  may_pop, push_onto, push, finalize_all,
}

-- Each block names the one before it as parent.
abbrev pub AreLinked : List ChainBlock → Type 0
AreLinked [] = Unit
AreLinked (b ∷ []) = Unit
AreLinked (b ∷ a ∷ rest) =
    (b.parent_number ≡ a.number) × (b.parent_hash ≡ a.hash) × AreLinked (a ∷ rest)

-- From the back on, the references are those of the blocks, as far as both go.
abbrev pub AreAligned : List BlockRef → List ChainBlock → Type 0
AreAligned [] bs = Unit
AreAligned (r ∷ rs) [] = Unit
AreAligned (r ∷ rs) (b ∷ bs) = (r ≡ block_ref b) × AreAligned rs bs

-- A finalized chain has a finalized head, and another one has a reference for each block.
abbrev pub Fits : Bool → List BlockRef → List ChainBlock → Type 0
Fits true chain blocks = 0 < length chain
Fits false chain blocks = length chain ≡ length blocks

pub record IsLinked (c : Chain) : Type 0 where
  pub linked : AreLinked c.blocks
  pub aligned : AreAligned c.chain c.blocks
  pub fits : Fits c.fin c.chain c.blocks
  pub flagged : length c.stored ≡ length c.blocks

-- The given number of blocks from the front is left of the old ones.
abbrev pub IsBack : List ChainBlock → List ChainBlock → Type 0
IsBack kept old = (dropped : List ChainBlock) × (old ≡ dropped ++ kept)

pub record Pushed (b : ChainBlock) (old : List ChainBlock) (c : Chain) : Type 0 where
  pub sound : IsLinked c
  pub is_head : head? c.chain ≡ some (block_ref b)
  pub kept : List ChainBlock
  pub extends : c.blocks ≡ b ∷ kept
  pub from_old : IsBack kept old

Fits-append :
    (fin : Bool) (b : ChainBlock) (chain : List BlockRef) (blocks : List ChainBlock)
    → Fits fin chain blocks
    → Fits fin (block_ref b ∷ chain) (b ∷ blocks)
Fits-append true b chain blocks f = omega arith
Fits-append false b chain blocks f = ap suc f

AreLinked-append :
    (b : ChainBlock) (prev : BlockRef) (chain : List BlockRef) (blocks : List ChainBlock)
    → is_parent b prev ≡ true
    → AreAligned (prev ∷ chain) blocks
    → AreLinked blocks
    → AreLinked (b ∷ blocks)
AreLinked-append b prev chain [] p a l = tt
AreLinked-append b prev chain (x ∷ blocks) p a l =
    (ground (arith, a.0), ground (arith, eq_iff prev.hash b.parent_hash, a.0), l)

append-Pushed :
    (b : ChainBlock) (c : Chain)
    → IsLinked c
    → AreLinked (b ∷ c.blocks)
    → Pushed b c.blocks (append_block b c)
unfolding append_block
append-Pushed b c s l = record {
  sound = record {
    linked = l;
    aligned = (refl, s.aligned);
    fits = Fits-append c.fin b c.chain c.blocks s.fits;
    flagged = ap suc s.flagged;
  };
  is_head = refl;
  kept = c.blocks;
  extends = refl;
  from_old = ([], refl);
}

AreLinked-pop_back : (blocks : List ChainBlock) → AreLinked blocks → AreLinked (pop_back blocks)
AreLinked-pop_back [] l = tt
AreLinked-pop_back (b ∷ []) l = tt
AreLinked-pop_back (b ∷ a ∷ rest) l = l.2

AreAligned-none : (chain : List BlockRef) → AreAligned chain []
AreAligned-none [] = tt
AreAligned-none (r ∷ rs) = tt

AreAligned-pop_back :
    (prev : BlockRef) (chain : List BlockRef) (blocks : List ChainBlock)
    → AreAligned (prev ∷ chain) blocks
    → AreAligned chain (pop_back blocks)
AreAligned-pop_back prev chain [] a = AreAligned-none chain
AreAligned-pop_back prev chain (b ∷ bs) a = a.1

length-pop_back {ℓ} : {A : Type ℓ} (xs : List A) → length (pop_back xs) ≡ length xs - 1
length-pop_back [] = refl
length-pop_back (x ∷ xs) = omega arith

Fits-pop_back :
    (fin : Bool) (prev : BlockRef) (chain : List BlockRef) (blocks : List ChainBlock)
    → may_pop fin (prev ∷ chain) blocks ≡ ok tt
    → Fits fin (prev ∷ chain) blocks
    → Fits fin chain (pop_back blocks)
unfolding may_pop
Fits-pop_back true prev chain blocks m f = ground arith
Fits-pop_back false prev chain blocks m f = omega (arith, f, length-pop_back blocks)

popped :
    (prev : BlockRef) (chain : List BlockRef) (fin : Bool) (blocks : List ChainBlock)
    (stored : List Bool) (min_size : ℕ)
    → may_pop fin (prev ∷ chain) blocks ≡ ok tt
    → IsLinked (record {
      chain = prev ∷ chain;
      fin = fin;
      blocks = blocks;
      stored = stored;
      min_size = min_size;
    })
    → IsLinked (record {
      chain = chain;
      fin = fin;
      blocks = pop_back blocks;
      stored = pop_back stored;
      min_size = min_size;
    })
popped prev chain fin blocks stored min_size m s = record {
  linked = AreLinked-pop_back blocks s.linked;
  aligned = AreAligned-pop_back prev chain blocks s.aligned;
  fits = Fits-pop_back fin prev chain blocks m s.fits;
  flagged = length-pop_back stored ∙ ap (λ n. n - 1) s.flagged ∙ sym (length-pop_back blocks);
}

IsBack-pop_back :
    (kept blocks : List ChainBlock) → IsBack kept (pop_back blocks) → IsBack kept blocks
IsBack-pop_back kept [] k = k
IsBack-pop_back kept (b ∷ bs) k = (b ∷ k.0, ap (λ x. b ∷ x) k.1)

no_blocks : (fin : Bool) (blocks : List ChainBlock) → Fits fin [] blocks → blocks ≡ []
no_blocks true blocks f = absurd (omega arith)
no_blocks false [] f = refl
no_blocks false (b ∷ bs) f = absurd (omega arith)

push_onto-Pushed :
    (b : ChainBlock) (chain : List BlockRef) (fin : Bool) (blocks : List ChainBlock)
    (stored : List Bool) (min_size : ℕ) (c : Chain)
    → IsLinked
        (record { chain = chain; fin = fin; blocks = blocks; stored = stored; min_size = min_size })
    → push_onto b chain fin blocks stored min_size ≡ ok c
    → Pushed b blocks c
unfolding push_onto
push_onto-Pushed b [] fin blocks stored min_size c s h =
    let e = no_blocks fin blocks s.fits in
    let l : AreLinked (b ∷ blocks) = subst (λ x. AreLinked (b ∷ x)) (sym e) tt in
    subst (Pushed b blocks) (ground arith) (
      append-Pushed b
        (record { chain = []; fin = fin; blocks = blocks; stored = stored; min_size = min_size }) s
        l)
push_onto-Pushed b (prev ∷ chain) fin blocks stored min_size c s h =
    elim (Bool-cases (is_parent b prev)) [
      | inl parent ↦ subst (Pushed b blocks) (ground arith) (
          append-Pushed b
            (record {
              chain = prev ∷ chain;
              fin = fin;
              blocks = blocks;
              stored = stored;
              min_size = min_size;
            })
            s (AreLinked-append b prev chain blocks parent s.aligned s.linked))
      | inr other ↦
          lower other _ refl
            (push_onto-Pushed b chain fin (pop_back blocks) (pop_back stored) min_size c)
    ]
  where
    lower :
        is_parent b prev ≡ false
        → (m : Result ChainError (Unit {0})) → may_pop fin (prev ∷ chain) blocks ≡ m
        → (IsLinked (record {
          chain = chain;
          fin = fin;
          blocks = pop_back blocks;
          stored = pop_back stored;
          min_size = min_size;
        })
            → push_onto b chain fin (pop_back blocks) (pop_back stored) min_size ≡ ok c
            → Pushed b (pop_back blocks) c)
        → Pushed b blocks c
    lower other (err e) q ih = absurd (ground arith)
    lower other (ok u) q ih =
        let d = ih (popped prev chain fin blocks stored min_size q s) (ground arith) in
        record {
          sound = d.sound;
          is_head = d.is_head;
          kept = d.kept;
          extends = d.extends;
          from_old = IsBack-pop_back d.kept blocks d.from_old;
        }

-- A block that is accepted becomes the head, on top of a part of the blocks that were there, and the
-- blocks stay linked and in line with the references.
pub push-Pushed :
    (b : ChainBlock) (c c' : Chain) → IsLinked c → push b c ≡ ok c' → Pushed b c.blocks c'
unfolding push
push-Pushed b c c' s h = push_onto-Pushed b c.chain c.fin c.blocks c.stored c.min_size c' s h

-- Finalizing everything keeps the chain as sound as it was.
pub finalize_all-IsLinked : (c : Chain) → IsLinked c → IsLinked (finalize_all c)
unfolding finalize_all
finalize_all-IsLinked c s = at c.chain refl
  where
    first :
        (head : BlockRef) (rest : List BlockRef) (blocks : List ChainBlock)
        → AreAligned (head ∷ rest) blocks
        → AreAligned (head ∷ []) blocks
    first head rest [] a = tt
    first head rest (b ∷ bs) a = (a.0, tt)

    at : (chain : List BlockRef) → c.chain ≡ chain → IsLinked (finalize_last chain c)
    at [] e = s
    at (head ∷ rest) e = record {
      linked = s.linked;
      aligned = first head rest c.blocks (subst (λ x. AreAligned x c.blocks) e s.aligned);
      fits = omega arith;
      flagged = s.flagged;
    }
