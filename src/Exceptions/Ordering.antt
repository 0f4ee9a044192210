-- ===== src/Exceptions/Ordering.antt =====
-- What a program knows of the table while others go on.
pub mod Rows
