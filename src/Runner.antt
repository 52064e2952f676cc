-- ===== src/Runner.antt =====
-- The job runner: src/runner.rs.
pub mod Control
pub mod Command
pub mod Provenance
pub mod Apply
pub mod Plan
pub mod Inputs
pub mod Directory
pub mod Environment
pub mod Run
pub mod Rules
pub mod Delivered
pub mod Delivery
pub mod Steps
pub mod Matches
pub mod Accepts
pub mod Paths
pub mod Limits
pub mod Given
pub mod Parsed
pub mod Reports
mod Tests
mod InputTests
mod GivenTests
pub mod Starts
pub mod ApplyStarts
pub mod Verified
