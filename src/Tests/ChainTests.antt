-- ===== src/Tests/ChainTests.antt =====
-- The theorems on the chain of the block data source at a short chain.
use data_lib.Common.{
  ◌*◌, ℕ, ◌≡◌, refl, String, true, false, some, List, [], ◌∷◌, arith, ok, reverse,
}
use data_lib.Bds.Chain.{
  append_block, may_pop, push_onto, ChainBlock, Chain, push, fork_base, chain_fork_base,
}
use data_lib.Storage.Data.{BlockRef}
use data_lib.Bds.Chain.ForkBase.{first_agreeing, fork_base-first_agreeing}
use data_lib.Bds.Chain.Bisect.{bisect, narrow, IsLowerBound, bisect-IsLowerBound}
use data_lib.Bds.Chain.Finalize.{finalize, IsCut, finalize-IsCut, clean, clean_front}
use data_lib.Bds.Chain.Linked.{IsLinked, Pushed, push-Pushed}

abbrev block : ℕ → String → ℕ → String → ChainBlock
block n h m p = record { number = n; hash = h; parent_number = m; parent_hash = p }

-- Blocks 2 and 4 on the finalized block 1; there is no block 3.
abbrev blocks : List ChainBlock
blocks = block 4 "a4" 2 "a2" ∷ block 2 "a2" 1 "a1" ∷ []

abbrev chain : Chain
chain = record {
  chain =
      record { number = 4; hash = "a4" }
      ∷ record { number = 2; hash = "a2" }
      ∷ record { number = 1; hash = "a1" }
      ∷ [];
  fin = true;
  blocks = blocks;
  stored = false ∷ true ∷ [];
  min_size = 1;
}

chain-IsLinked : IsLinked chain
chain-IsLinked = record {
  linked = (refl, refl, tt);
  aligned = (refl, (refl, tt));
  fits = omega arith;
  flagged = refl;
}

abbrev other : ChainBlock
other = block 3 "b3" 2 "a2"

abbrev forked : Chain
forked = record chain {
  chain =
      record { number = 3; hash = "b3" }
      ∷ record { number = 2; hash = "a2" }
      ∷ record { number = 1; hash = "a1" }
      ∷ [];
  blocks = other ∷ block 2 "a2" 1 "a1" ∷ [];
  stored = false ∷ true ∷ [];
}

pushes : push other chain ≡ ok forked
unfolding push push_onto may_pop append_block
pushes = refl

push-Pushed_example : Pushed other blocks forked
push-Pushed_example = push-Pushed other chain forked chain-IsLinked pushes

-- The finalized block 1 is common, block 2 is not.
abbrev rival_hints : List BlockRef
rival_hints = record { number = 1; hash = "a1" } ∷ record { number = 2; hash = "b2" } ∷ []

falls_back : chain_fork_base rival_hints chain ≡ ok (some (record { number = 1; hash = "a1" }))
unfolding chain_fork_base fork_base
falls_back = refl

fork_base-first_agreeing_example :
    fork_base chain.chain (reverse rival_hints) ≡ first_agreeing chain.chain (reverse rival_hints)
fork_base-first_agreeing_example =
    fork_base-first_agreeing chain.chain (reverse rival_hints)
      ((omega arith, (omega arith, tt)), ((omega arith, tt), (tt, tt))) (refl, tt)

agrees_at_one :
    first_agreeing chain.chain (reverse rival_hints) ≡ some (record { number = 1; hash = "a1" })
agrees_at_one = refl

abbrev ref : ℕ → String → BlockRef
ref n h = record { number = n; hash = h }

-- The numbers 0, 2, 4, and so on: block 7 would stand at index 4 of 6.
bisect-IsLowerBound_example :
    (r : ℕ) × (bisect 6 (λ i. i * 2) 7 ≡ some r) × IsLowerBound 6 (λ i. i * 2) 7 r
bisect-IsLowerBound_example = bisect-IsLowerBound 6 (λ i. i * 2) 7 (λ i j h k. omega (arith, h))

bisects : bisect 6 (λ i. i * 2) 7 ≡ some 4
unfolding bisect narrow
bisects = refl

abbrev at_two : Chain
at_two = record chain {
  chain = record { number = 4; hash = "a4" } ∷ record { number = 2; hash = "a2" } ∷ [];
}

finalizes : finalize (ref 2 "a2") chain ≡ ok (true, at_two)
unfolding finalize bisect narrow
finalizes = refl

finalize-IsCut_example : IsCut (ref 2 "a2") chain (true, at_two)
finalize-IsCut_example = finalize-IsCut (ref 2 "a2") chain (true, at_two) chain-IsLinked finalizes

-- The front block is stored, and one block is to stay.
cleans : (clean chain).0 ≡ true
unfolding clean clean_front
cleans = refl
