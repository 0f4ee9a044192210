-- ===== src/Corpus.antt =====
-- The supplied corpus: its files, and their ingestion into the database.
pub mod Calls
pub mod Lines
pub mod Reading
pub mod Loader
mod Examples
