-- ===== src/BlockSource.antt =====
-- crates/lr-blocksource: reading a source in chunks.
pub mod Plan
