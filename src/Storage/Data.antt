-- ===== src/Storage/Data.antt =====
-- crates/storage/src/db/data.rs and `BlockRef` of crates/primitives/src/types.rs: the records that
-- the database keeps for a dataset. Block numbers are u64; a hash is compared as text only.
use data_lib.Common.{
  ℕ, ◌+◌, ◌-◌, ◌≡◌, ◌↔◌, String, Bool, true, Option, List, ◌&&◌, arith, ◌==◌, str_eq, eq_iff,
}
use data_lib.Common.Int.{ℤ}

pub record BlockRef : Type 0 where
  pub number : ℕ
  pub hash : String

-- `#[derive(Eq)]` of `BlockRef`.
abbrev pub ref_eq : BlockRef → BlockRef → Bool
ref_eq a b = (a.number == b.number) && str_eq a.hash b.hash

-- A column of the chunk's tables: the table's name and its id (a UUIDv7, 128 bits).
abbrev pub Tables : Type 0
Tables = List (String × ℕ)

pub data Chunk : Type 0 where
  v0 :
      (first_block last_block : ℕ) (last_block_hash parent_block_hash : String) (tables : Tables)
      → Chunk
  v1 :
      (first_block last_block : ℕ) (last_block_hash parent_block_hash : String)
      (first_block_time last_block_time : Option ℤ) (tables : Tables)
      → Chunk

unfoldable pub first_block : Chunk → ℕ
first_block (v0 f l h p t) = f
first_block (v1 f l h p a b t) = f

unfoldable pub last_block : Chunk → ℕ
last_block (v0 f l h p t) = l
last_block (v1 f l h p a b t) = l

unfoldable pub last_block_hash : Chunk → String
last_block_hash (v0 f l h p t) = h
last_block_hash (v1 f l h p a b t) = h

unfoldable pub parent_block_hash : Chunk → String
parent_block_hash (v0 f l h p t) = p
parent_block_hash (v1 f l h p a b t) = p

unfoldable pub tables : Chunk → Tables
tables (v0 f l h p t) = t
tables (v1 f l h p a b t) = t

unfoldable pub blocks_count : Chunk → ℕ
unfolding first_block last_block
blocks_count c = last_block c - first_block c + 1

unfoldable pub next_block : Chunk → ℕ
unfolding last_block
next_block c = last_block c + 1

pub record DatasetLabel : Type 0 where
  pub kind : String
  pub version : ℕ
  pub finalized_head : Option BlockRef

unfoldable pub bump_version : DatasetLabel → DatasetLabel
bump_version l = record l { version = l.version + 1 }

unfoldable pub set_finalized_head : Option BlockRef → DatasetLabel → DatasetLabel
set_finalized_head b l = record l { finalized_head = b }

pub ref_eq_iff : (a b : BlockRef) → (ref_eq a b ≡ true) ↔ (a ≡ b)
ref_eq_iff a b =
    (λ h. ground (arith, eq_iff a.hash b.hash), λ h. ground (arith, eq_iff a.hash b.hash))
