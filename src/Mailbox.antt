-- ===== src/Mailbox.antt =====
-- The mailbox system calls that prj_2/src/mailbox.c adds to the VFS server.
pub mod State
pub mod Slots
pub mod Wake
pub mod Quiet
pub mod Woken
pub mod Inv
pub mod Pool
pub mod Queue
pub mod Lookup
pub mod Deadlock
pub mod Deposit
pub mod Retrieve
pub mod Lifetime
pub mod Register
pub mod Listing
pub mod Client
mod Examples
mod Tests
