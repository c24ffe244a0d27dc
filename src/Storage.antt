-- ===== src/Storage.antt =====
-- The storage engine of crates/storage: the chunks of a dataset, their block rows, and transactions.
pub mod Kv
pub mod Data
pub mod Failure
pub mod Chunks
pub mod Blocks
pub mod Tx
pub mod Prefix
pub mod Retry
