-- ===== src/Store.antt =====
-- crates/lr-store: destinations of images.
pub mod Remote
pub mod Publish
