-- ===== src/Model.antt =====
-- model/: the data contracts that have logic of their own.
pub mod StatusSet
pub mod Placeholder
mod Tests
