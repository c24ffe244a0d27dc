-- ===== src/Primitives.antt =====
-- crates/primitives/src/types.rs: the trait `Block`.
pub mod Sid
use data_lib.Common.{ℕ, String, Option}
use data_lib.Common.Int.{ℤ}

-- What the trait gives of a block. `Body` is the rest, which only the builders of tables see.
pub record Block (Body : Type 0) : Type 0 where
  pub number : ℕ
  pub hash : String
  pub parent_hash : String
  pub timestamp : Option ℤ
  pub data_mask : ℕ
  pub body : Body
