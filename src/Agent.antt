-- ===== src/Agent.antt =====
-- The agent's loop of src/main.rs: a poll finishes what the journal still holds, or claims a job,
-- executes it and reports it.
pub mod Effects
pub mod Poll
pub mod Once
pub mod Runs
pub mod AtMostOnce
mod Tests
