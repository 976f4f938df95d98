-- ===== src/FsMap.antt =====
-- crates/lr-fsmap: range arithmetic and the used-byte map of a device.
pub mod Extents
pub mod ExtentMap
