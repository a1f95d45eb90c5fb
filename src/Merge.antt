-- ===== src/Merge.antt =====
-- src/merge/mod.rs: the textual level of the semantic merge.
pub mod Lcs
pub mod Hunks
pub mod Text
mod Tests
