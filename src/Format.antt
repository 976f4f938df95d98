-- ===== src/Format.antt =====
-- crates/lr-format: the `.lrimg` codecs.
pub mod Wire
pub mod Compress
pub mod Chunk
pub mod PageTable
pub mod Superblock
pub mod Footer
pub mod PageReader
pub mod ImageWriter
pub mod PageStream
pub mod Manifest
