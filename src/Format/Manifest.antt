-- ===== src/Format/Manifest.antt =====
-- crates/lr-format/src/manifest.rs: block manifests, their entries and their deltas.
pub mod Header
pub mod Entry
pub mod Stream
pub mod Delta
