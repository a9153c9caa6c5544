-- ===== src/Import.antt =====
-- import/: history that a client kept elsewhere.
pub mod Link
pub mod Zip
pub mod Tests
