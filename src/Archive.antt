-- ===== src/Archive.antt =====
-- Extraction of archives: src/archive.rs.
pub mod Tree
pub mod Extract
pub mod Below
pub mod Names
pub mod Parents
pub mod Contained
pub mod Limits
pub mod Content
mod Tests
