-- ===== src/Journal.antt =====
-- The execution journal of src/journal.rs: one record for each job, which survives a restart.
pub mod Disk
pub mod Record
pub mod Operations
pub mod Safe
pub mod Prune
pub mod Keeps
pub mod Entries
pub mod Limits
