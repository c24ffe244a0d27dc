-- ===== src/Archive.antt =====
-- The archive writer of crates/archive.
pub mod Layout
