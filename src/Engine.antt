-- ===== src/Engine.antt =====
-- crates/lr-engine: what the engine decides about chains and sets.
pub mod Effect
pub mod Retention
pub mod Chain
pub mod ChainWalk
