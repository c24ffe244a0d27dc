-- ===== src/Hotblocks.antt =====
-- The single writer of a dataset of crates/hotblocks: the finality policy, the write controller and
-- the ingest task that feeds it.
pub mod Finality
pub mod Writer
pub mod Ingest
