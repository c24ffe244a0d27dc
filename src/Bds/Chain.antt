-- ===== src/Bds/Chain.antt =====
-- `Chain` of crates/bds/src/chain.rs: the last blocks of a chain in memory. The queues are lists with
-- the back first, since blocks come and go there.
pub mod Linked
pub mod ForkBase
pub mod Bisect
pub mod Finalize
pub mod Clean
use data_lib.Common.{
  ℕ, zero, suc, ◌+◌, ◌-◌, ◌≤◌, ◌<◌, ◌≡◌, ◌≢◌, ◌↔◌, ◌⊎◌, inl, inr, refl, sym, ap, subst, ◌∙◌, String,
  Bool, true, false, not, ◌&&◌, ◌||◌, Option, none, some, List, [], ◌∷◌, ◌++◌, map, reverse, arith,
  ltb, leb, ◌==◌, str_eq, eq_iff, if◌then◌else◌, Result, ok, err, ensure, ◌>>=◌, ◌>>◌, >>=-eq-ok,
  All, All-append, Bool-cases, Option-cases, min, max, length, get_elem?, append_assoc, append-nil,
}
use data_lib.Storage.Data.{BlockRef}

-- What the chain reads of a block.
pub record ChainBlock : Type 0 where
  pub number : ℕ
  pub hash : String
  pub parent_number : ℕ
  pub parent_hash : String

abbrev pub block_ref : ChainBlock → BlockRef
block_ref b = record { number = b.number; hash = b.hash }

pub data ChainError : Type 0 where
  missing_block not_based_on_finalized_head rollback_below_finalized_head not_part_of_chain :
      ChainError
  -- an `assert!`, an `unwrap` or an index that fails
  panicked : ChainError

-- `chain` starts at the highest finalized block where `fin` holds.
pub record Chain : Type 0 where
  pub chain : List BlockRef
  pub fin : Bool
  pub blocks : List ChainBlock
  pub stored : List Bool
  pub min_size : ℕ

pub record HeadChain : Type 0 where
  pub chain_blocks : List BlockRef
  pub first_finalized : Bool

-- `assert!(!(chain.first_finalized && chain.blocks.is_empty()))`
unfoldable pub new_chain : HeadChain → ℕ → Result ChainError Chain
new_chain h min_size = do
  ensure (elim h.chain_blocks [ [] ↦ not h.first_finalized | b ∷ bs ↦ true ]) panicked
  ok (record {
    chain = reverse h.chain_blocks;
    fin = h.first_finalized;
    blocks = [];
    stored = [];
    min_size = min_size;
  })

abbrev pub pop_back {ℓ} : {A : Type ℓ} → List A → List A
pop_back [] = []
pop_back (x ∷ xs) = xs

abbrev pub is_parent : ChainBlock → BlockRef → Bool
is_parent b prev = (prev.number == b.parent_number) && str_eq prev.hash b.parent_hash

unfoldable pub append_block : ChainBlock → Chain → Chain
append_block b c = record c {
  chain = block_ref b ∷ c.chain;
  blocks = b ∷ c.blocks;
  stored = false ∷ c.stored;
}

-- Whether the back may be dropped to look for the parent further down.
unfoldable pub may_pop : Bool → List BlockRef → List ChainBlock → Result ChainError (Unit {0})
may_pop true chain blocks = ensure (ltb 1 (length chain)) not_based_on_finalized_head
may_pop false chain blocks = ensure (length chain == length blocks) panicked

-- The loop of `push`, over the entries of `chain`.
unfoldable pub push_onto :
    ChainBlock → List BlockRef → Bool → List ChainBlock → List Bool → ℕ → Result ChainError Chain
push_onto b [] fin blocks stored min_size = ok (
    append_block b
      (record { chain = []; fin = fin; blocks = blocks; stored = stored; min_size = min_size }))
push_onto b (prev ∷ chain) fin blocks stored min_size =
    let next = push_onto b chain fin (pop_back blocks) (pop_back stored) min_size in
    if is_parent b prev
    then ok (
        append_block b (record {
          chain = prev ∷ chain;
          fin = fin;
          blocks = blocks;
          stored = stored;
          min_size = min_size;
        }))
    else if ltb prev.number b.parent_number
    then err missing_block
    else do may_pop fin (prev ∷ chain) blocks; next

unfoldable pub push : ChainBlock → Chain → Result ChainError Chain
push b c = push_onto b c.chain c.fin c.blocks c.stored c.min_size

-- The cases of `finalize_all` on the length of `chain`.
abbrev pub finalize_last : List BlockRef → Chain → Chain
finalize_last [] c = c
finalize_last (head ∷ rest) c = record c { chain = head ∷ []; fin = true }

unfoldable pub finalize_all : Chain → Chain
finalize_all c = finalize_last c.chain c

-- `prev.last().map_or(false, |p| p.number < n)`
abbrev pub last_below : ℕ → List BlockRef → Bool
last_below n [] = false
last_below n (p ∷ rest) = ltb p.number n

-- `while prev.last().map_or(false, |p| p.number > n) { *prev = pop(prev); }`
abbrev pub hints_up_to : ℕ → List BlockRef → List BlockRef
hints_up_to n [] = []
hints_up_to n (p ∷ rest) = if ltb n p.number then hints_up_to n rest else p ∷ rest

-- `compute_fork_base` of crates/bds/src/util.rs, over a chain and hints that both start at the back.
unfoldable pub fork_base : List BlockRef → List BlockRef → Option BlockRef
fork_base [] prev = none
fork_base (b ∷ chain) prev =
    let left = hints_up_to b.number prev in
    let skipped = fork_base chain prev in
    let next = fork_base chain (pop_back left) in
    if last_below b.number prev then skipped else elim left [
      | [] ↦ some b
      | p ∷ rest ↦ if (b.number == p.number) && str_eq b.hash p.hash then some b else next
    ]

-- `Chain::compute_fork_base`
unfoldable pub chain_fork_base : List BlockRef → Chain → Result ChainError (Option BlockRef)
chain_fork_base prev c = elim (fork_base c.chain (reverse prev)) [
  | some head ↦ ok (some head)
  | none ↦ if c.fin && ltb 0 (length c.chain) then err rollback_below_finalized_head else ok none
]
