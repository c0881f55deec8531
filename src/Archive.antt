-- ===== src/Archive.antt =====
-- Archives of ara2-bridge-core/src/archive.
pub mod Memory
pub mod Filters
