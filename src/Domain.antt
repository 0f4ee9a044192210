-- ===== src/Domain.antt =====
-- src/domain: contracts and the rules that need no provider.
pub mod Contracts
pub mod Readings
pub mod Validation
pub mod Access
pub mod Search
pub mod Documents
pub mod Embedding
pub mod Chunking
mod Examples
