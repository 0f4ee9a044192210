-- ===== src/Exceptions/Lifecycle.antt =====
-- The life of an exception record under the API and the worker, in any interleaving.
pub mod Writes
pub mod Rows
pub mod Published
pub mod System
