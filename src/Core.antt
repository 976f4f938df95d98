-- ===== src/Core.antt =====
-- crates/lr-core: the vocabulary that the other crates share. Its errors are in Base/Result.
pub mod ImageKind
pub mod Consistency
pub mod Catalog
pub mod Names
