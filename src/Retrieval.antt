-- ===== src/Retrieval.antt =====
-- Retrieval of documents under access control.
pub mod Policy
pub mod Clause
pub mod Calls
pub mod Fusion
pub mod Search
pub mod Workflow
pub mod Orchestration
mod Examples
