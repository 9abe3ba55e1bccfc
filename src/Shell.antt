-- ===== src/Shell.antt =====
-- The shell mrpsh, prj_1.
pub mod Assoc
pub mod Valid
pub mod Split
pub mod Locate
pub mod Startup
pub mod Input
pub mod Parse
pub mod Alias
pub mod Check
pub mod Turn
pub mod Execute
pub mod Session
pub mod Paths
pub mod Signal
mod Tests
