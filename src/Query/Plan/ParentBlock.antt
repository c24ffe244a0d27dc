-- ===== src/Query/Plan/ParentBlock.antt =====
-- `check_parent_block` of plan/plan.rs. The rows that the scan of the block headers yields are a
-- parameter; reading them does not fail.
pub mod Latest
use data_lib.Common.{
  ℕ, zero, suc, ◌+◌, ◌-◌, String, Bool, true, false, Option, none, some, List, [], ◌∷◌, map, leb,
  str_eq, if◌then◌else◌, Result, ok, err, last?,
}
use data_lib.Storage.Data.{BlockRef}

-- The header table of a chunk: whether it has the column `parent_number`, and the numbers in the
-- given column and the parent hashes of the rows where that column is between two numbers, both
-- included.
pub record HeaderTable : Type 0 where
  pub has_parent_number : Bool
  pub between : (column : String) → (lower upper : ℕ) → List (ℕ × Option String)

pub data CheckError : Type 0 where
  no_block_number : CheckError
  not_present : (block : ℕ) → CheckError
  unexpected_base_block : (prev_blocks : List BlockRef) → (expected_hash : String) → CheckError

abbrev pub hash_or_empty : Option String → String
hash_or_empty none = ""
hash_or_empty (some hash) = hash

unfoldable pub parent_ref : Bool → ℕ × Option String → BlockRef
parent_ref has_parent_number (number, hash) = record {
  number = if has_parent_number then number else number - 1;
  hash = hash_or_empty hash;
}

-- `saturating_sub` is the subtraction of the natural numbers.
unfoldable pub read_refs : HeaderTable → ℕ → List BlockRef
unfolding parent_ref
read_refs t block_number = map (parent_ref t.has_parent_number) (
    t.between (if t.has_parent_number then "parent_number" else "number") (block_number - 100)
      (if t.has_parent_number then block_number - 1 else block_number))

-- `sort_by` keeps the order of equal numbers.
unfoldable pub insert_ref : BlockRef → List BlockRef → List BlockRef
insert_ref r [] = r ∷ []
insert_ref r (x ∷ xs) =
    let rest = insert_ref r xs in if leb r.number x.number then r ∷ x ∷ xs else x ∷ rest

unfoldable pub sort_refs : List BlockRef → List BlockRef
unfolding insert_ref
sort_refs [] = []
sort_refs (r ∷ refs) = insert_ref r (sort_refs refs)

unfoldable pub check_parent_block :
    HeaderTable → Option String → Option ℕ → Result CheckError (Unit {0})
unfolding read_refs sort_refs
check_parent_block t none first_block = ok tt
check_parent_block t (some parent_hash) none = err no_block_number
check_parent_block t (some parent_hash) (some block_number) =
    let refs = sort_refs (read_refs t block_number) in
    elim (last? refs) [
      | none ↦ err (not_present block_number)
      | some parent_block ↦
          if str_eq parent_block.hash parent_hash
          then ok tt
          else err (unexpected_base_block refs parent_hash)
    ]
