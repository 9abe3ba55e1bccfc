-- ===== src/Tools.antt =====
-- The command line tools of prj_3/tool.
pub mod Options
pub mod Devices
mod Tests
