-- ===== src/Bds.antt =====
-- The block data source of crates/bds.
pub mod Chain
