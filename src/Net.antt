-- ===== src/Net.antt =====
-- Which addresses the agent lets itself be sent to, and how it downloads: src/client.rs and the
-- address check of src/config.rs.
pub mod Address
pub mod Policy
pub mod Artifact
pub mod Safety
pub mod Download
pub mod Honest
pub mod Recovers
pub mod File
pub mod Refines
pub mod FileBounds
pub mod Misplaced
mod Tests
