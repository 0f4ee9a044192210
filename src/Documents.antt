-- ===== src/Documents.antt =====
-- Documents and their chunks in the database.
pub mod Calls
pub mod Repository
pub mod Listing
pub mod Service
pub mod Run
mod Examples
