-- ===== src/Archive.antt =====
-- src/archive/names.rs and src/archive/guard.rs: what an archive may hold.
pub mod Names
pub mod Guard
pub mod Tests
