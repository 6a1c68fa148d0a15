-- ===== src/Logging.antt =====
-- src/logging: the records that the programs write about themselves.
pub mod Integrity
pub mod Repetition
