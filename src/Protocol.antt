-- ===== src/Protocol.antt =====
-- The types of src/protocol.rs that the parts of the agent exchange.
pub mod Completion
pub mod Job
pub mod Json
pub mod Counts
pub mod Checks
pub mod Accepted
