-- ===== src/Bds/Chain/Finalize.antt =====
-- `finalize`, `mark_stored` and `clean` of crates/bds/src/chain.rs.
use data_lib.Common.{
  ltb→lt, ℕ, zero, suc, ◌-◌, ◌<◌, ◌≡◌, ◌⊎◌, inl, inr, refl, sym, ap, subst, ◌∙◌, Bool, true, false,
  not, ◌||◌, Option, none, some, List, [], ◌∷◌, arith, ltb, if◌then◌else◌, Result, ok, err,
  Bool-cases, length, head?, last?,
}
use data_lib.Storage.Data.{ref_eq_iff, BlockRef, ref_eq}
use data_lib.Bds.Chain.{
  finalize_last, ChainBlock, Chain, ChainError, panicked, not_part_of_chain, finalize_all,
}
use data_lib.Bds.Chain.Bisect.{bisect}
use data_lib.Bds.Chain.Linked.{AreLinked, AreAligned, IsLinked, finalize_all-IsLinked}

abbrev pub pop_front {ℓ} : {A : Type ℓ} → List A → List A
pop_front [] = []
pop_front (x ∷ []) = []
pop_front (x ∷ y ∷ ys) = x ∷ pop_front (y ∷ ys)

abbrev pub pop_fronts {ℓ} : {A : Type ℓ} → ℕ → List A → List A
pop_fronts zero xs = xs
pop_fronts (suc n) xs = pop_fronts n (pop_front xs)

-- `xs[i]` of a queue.
abbrev pub at_front {ℓ} : {A : Type ℓ} → List A → ℕ → Option A
at_front xs zero = last? xs
at_front xs (suc i) = at_front (pop_front xs) i

-- Out of range there is no index to read, and 0 stands for it.
abbrev pub number_at : List BlockRef → ℕ → ℕ
number_at chain i = elim (at_front chain i) as (λ _. ℕ) [ none ↦ 0 | some r ↦ r.number ]

-- The part of `finalize` on a block at or below the head of the chain.
abbrev pub finalize_found :
    BlockRef → ℕ → Option BlockRef → Chain → Result ChainError (Bool × Chain)
finalize_found head pos none c = err panicked
finalize_found head pos (some r) c =
    if ref_eq r head
    then ok (not c.fin || ltb 0 pos, record c { chain = pop_fronts pos c.chain; fin = true })
    else err not_part_of_chain

abbrev pub finalize_at : BlockRef → Option ℕ → Chain → Result ChainError (Bool × Chain)
finalize_at head none c = err panicked
finalize_at head (some pos) c = finalize_found head pos (at_front c.chain pos) c

abbrev pub finalize_above : BlockRef → Option BlockRef → Chain → Result ChainError (Bool × Chain)
finalize_above head none c = err panicked
finalize_above head (some back) c =
    if ltb back.number head.number
    then (if ltb 1 (length c.chain) then ok (true, finalize_all c) else ok (false, c))
    else finalize_at head (bisect (length c.chain) (number_at c.chain) head.number) c

unfoldable pub finalize : BlockRef → Chain → Result ChainError (Bool × Chain)
finalize head c = elim (last? c.chain) [
  | none ↦ ok (false, c)
  | some front ↦
      if ltb head.number front.number then ok (false, c) else finalize_above head (head? c.chain) c
]

-- The loop of `clean`; it runs at most as often as there are blocks, so that a flag is there.
unfoldable pub clean_front : ℕ → Chain → Bool × Chain
clean_front zero c = (false, c)
clean_front (suc n) c =
    let (more, c') = clean_front n (record c {
      stored = pop_front c.stored;
      blocks = pop_front c.blocks;
      chain = if c.fin then c.chain else pop_front c.chain;
    }) in
    elim (last? c.stored) [
      | none ↦ (false, c)
      | some is_stored ↦ if is_stored then (true, c') else (false, c)
    ]

unfoldable pub clean : Chain → Bool × Chain
clean c = clean_front (length c.blocks - c.min_size) c

last?-pop_fronts {ℓ} : {A : Type ℓ} (n : ℕ) (xs : List A) → last? (pop_fronts n xs) ≡ at_front xs n
last?-pop_fronts zero xs = refl
last?-pop_fronts (suc n) xs = last?-pop_fronts n (pop_front xs)

pub AreAligned-pop_front :
    (chain : List BlockRef) (blocks : List ChainBlock)
    → AreAligned chain blocks
    → AreAligned (pop_front chain) blocks
AreAligned-pop_front [] blocks a = tt
AreAligned-pop_front (r ∷ []) blocks a = tt
AreAligned-pop_front (r ∷ s ∷ rs) [] a = tt
AreAligned-pop_front (r ∷ s ∷ rs) (b ∷ bs) a = (a.0, AreAligned-pop_front (s ∷ rs) bs a.1)

pub AreAligned-pop_block :
    (chain : List BlockRef) (blocks : List ChainBlock)
    → AreAligned chain blocks
    → AreAligned chain (pop_front blocks)
AreAligned-pop_block [] blocks a = tt
AreAligned-pop_block (r ∷ rs) [] a = tt
AreAligned-pop_block (r ∷ rs) (b ∷ []) a = tt
AreAligned-pop_block (r ∷ rs) (b ∷ c ∷ bs) a = (a.0, AreAligned-pop_block rs (c ∷ bs) a.1)

pub AreLinked-pop_front :
    (blocks : List ChainBlock) → AreLinked blocks → AreLinked (pop_front blocks)
AreLinked-pop_front [] l = tt
AreLinked-pop_front (b ∷ []) l = tt
AreLinked-pop_front (b ∷ a ∷ []) l = tt
AreLinked-pop_front (b ∷ a ∷ c ∷ rest) l = (l.0, l.1, AreLinked-pop_front (a ∷ c ∷ rest) l.2)

pub length-pop_front {ℓ} : {A : Type ℓ} (xs : List A) → length (pop_front xs) ≡ length xs - 1
length-pop_front [] = refl
length-pop_front (x ∷ []) = refl
length-pop_front (x ∷ y ∷ ys) = omega (arith, length-pop_front (y ∷ ys))

AreAligned-pop_fronts :
    (n : ℕ) (chain : List BlockRef) (blocks : List ChainBlock)
    → AreAligned chain blocks
    → AreAligned (pop_fronts n chain) blocks
AreAligned-pop_fronts zero chain blocks a = a
AreAligned-pop_fronts (suc n) chain blocks a =
    AreAligned-pop_fronts n (pop_front chain) blocks (AreAligned-pop_front chain blocks a)

some_left {ℓ} : {A : Type ℓ} (xs : List A) (x : A) → last? xs ≡ some x → 0 < length xs
some_left [] x e = absurd cc
some_left (y ∷ ys) x e = omega arith

-- The queues of blocks stay, and the chain is as it was, or starts with a final block: the reported one, or
-- the head of the chain, where the report is above it.
abbrev pub IsCut : BlockRef → Chain → Bool × Chain → Type 0
IsCut head c (changed, c') =
    IsLinked c'
    × (c'.blocks ≡ c.blocks)
    × ((c' ≡ c)
        ⊎ ((c'.fin ≡ true)
            × ((last? c'.chain ≡ some head)
                ⊎ ((f : BlockRef) × (head? c.chain ≡ some f)
                    × (last? c'.chain ≡ some f)
                    × (f.number < head.number)))))

abbrev IfOk : BlockRef → Chain → Result ChainError (Bool × Chain) → Type 0
IfOk head c (err e) = Unit
IfOk head c (ok r) = IsCut head c r

finalize_all-IfOk :
    (head back : BlockRef) (c : Chain)
    → IsLinked c
    → head? c.chain ≡ some back
    → back.number < head.number
    → IfOk head c (ok (true, finalize_all c))
unfolding finalize_all
finalize_all-IfOk head back c s e below =
    (finalize_all-IsLinked c s, (at c.chain refl).0, (at c.chain refl).1)
  where
    at :
        (chain : List BlockRef)
        → c.chain ≡ chain
        → ((finalize_last chain c).blocks ≡ c.blocks)
          × ((finalize_last chain c ≡ c)
              ⊎ (((finalize_last chain c).fin ≡ true)
                  × ((last? (finalize_last chain c).chain ≡ some head)
                      ⊎ ((f : BlockRef) × (head? c.chain ≡ some f)
                          × (last? (finalize_last chain c).chain ≡ some f)
                          × (f.number < head.number)))))
    at [] q = (refl, inl refl)
    at (r ∷ rs) q = (refl, inr (refl, inr (back, e, sym (ap head? q) ∙ e, below)))

finalize_at-IfOk :
    (head : BlockRef) (pos : Option ℕ) (c : Chain)
    → IsLinked c
    → IfOk head c (finalize_at head pos c)
finalize_at-IfOk head none c s = tt
finalize_at-IfOk head (some pos) c s = at (at_front c.chain pos) refl
  where
    start : (r : BlockRef) → at_front c.chain pos ≡ some r → last? (pop_fronts pos c.chain) ≡ some r
    start r q = last?-pop_fronts pos c.chain ∙ q

    kept :
        (r : BlockRef)
        → at_front c.chain pos ≡ some r
        → IsLinked (record c { chain = pop_fronts pos c.chain; fin = true })
    kept r q = record {
      linked = s.linked;
      aligned = AreAligned-pop_fronts pos c.chain c.blocks s.aligned;
      fits = some_left (pop_fronts pos c.chain) r (start r q);
      flagged = s.flagged;
    }

    at :
        (o : Option BlockRef) → at_front c.chain pos ≡ o → IfOk head c (finalize_found head pos o c)
    at none q = tt
    at (some r) q = elim (Bool-cases (ref_eq r head)) [
      | inl e ↦
          rw e (kept r q, refl, inr (refl, inl (start r q ∙ ap some ((ref_eq_iff r head).0 e))))
      | inr e ↦ rw e tt
    ]

if-IfOk :
    (head : BlockRef) (c : Chain) (b : Bool) (x y : Result ChainError (Bool × Chain))
    → (b ≡ true → IfOk head c x)
    → (b ≡ false → IfOk head c y)
    → IfOk head c (if b then x else y)
if-IfOk head c true x y hx hy = hx refl
if-IfOk head c false x y hx hy = hy refl

finalize-IfOk : (head : BlockRef) (c : Chain) → IsLinked c → IfOk head c (finalize head c)
unfolding finalize
finalize-IfOk head c s = at (last? c.chain) refl
  where
    above : (o : Option BlockRef) → head? c.chain ≡ o → IfOk head c (finalize_above head o c)
    above none q = tt
    above (some back) q =
        if-IfOk head c (ltb back.number head.number)
          (if ltb 1 (length c.chain) then ok (true, finalize_all c) else ok (false, c))
          (finalize_at head (bisect (length c.chain) (number_at c.chain) head.number) c)
          (λ l.
            if-IfOk head c (ltb 1 (length c.chain)) (ok (true, finalize_all c)) (ok (false, c))
              (λ m. finalize_all-IfOk head back c s q (ltb→lt _ _ l)) (λ m. (s, refl, inl refl)))
          (λ l. finalize_at-IfOk head (bisect (length c.chain) (number_at c.chain) head.number) c s)

    at : (o : Option BlockRef) → last? c.chain ≡ o → IfOk head c (finalize head c)
    at none q = rw (finalize, q) (s, refl, inl refl)
    at (some front) q =
        rw (finalize, q)
          (if-IfOk head c (ltb head.number front.number) (ok (false, c))
            (finalize_above head (head? c.chain) c) (λ l. (s, refl, inl refl))
            (λ l. above (head? c.chain) refl))

-- Finalizing a block that a linked chain accepts keeps the blocks and the links, and leaves the chain as it
-- was or starting at a final block: the one that is reported, or the old head, where it is below that.
pub finalize-IsCut :
    (head : BlockRef) (c : Chain) (r : Bool × Chain)
    → IsLinked c
    → finalize head c ≡ ok r
    → IsCut head c r
finalize-IsCut head c r s h = subst (IfOk head c) h (finalize-IfOk head c s)
