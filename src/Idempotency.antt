-- ===== src/Idempotency.antt =====
-- Idempotent writes: src/domain/idempotency.py, its PostgreSQL store and the handler of the API.
pub mod Calls
pub mod Ownership
pub mod Store
pub mod Handler
mod Examples
