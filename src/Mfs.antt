-- ===== src/Mfs.antt =====
-- The file system's part of the tools, prj_3/src/mfs/misc.c.
pub mod State
pub mod Blocks
pub mod External
pub mod Internal
mod Tests
