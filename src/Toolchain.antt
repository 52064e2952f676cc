-- ===== src/Toolchain.antt =====
-- The tools that a job runs: src/toolchain.rs.
pub mod Versions
pub mod Resolve
pub mod Checked
mod Tests
