-- ===== src/Routes.antt =====
-- src/api/routes.py: the HTTP handlers around the application, and the labels of their metrics.
pub mod Http
pub mod Labels
pub mod Readings
pub mod Retrieval
pub mod Documents
pub mod DocumentsV2
pub mod Corpus
mod Examples
