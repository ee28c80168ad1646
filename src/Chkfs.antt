-- ===== src/Chkfs.antt =====
-- The disk file system: k-chkfs.cc with k-chkfs.hh, k-chkfsiter.cc and chickadeefs.hh.
pub mod Lock
pub mod Cache
pub mod Blocks
pub mod Reading
pub mod Inodes
mod Tests
