-- ===== src/Logs.antt =====
-- The log pipeline of src/logs.rs: the durable spool, its recovery, and the uploader.
pub mod Spool
pub mod Names
pub mod Recovery
pub mod Opening
pub mod Listing
pub mod Upload
pub mod Finish
pub mod Ascending
pub mod Wire
pub mod Later
pub mod Delivery
pub mod Flush
pub mod Closing
pub mod Complete
mod Tests
