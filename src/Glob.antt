-- ===== src/Glob.antt =====
-- src/glob.rs: the patterns of `select` and `exclude`.
pub mod Pattern
pub mod Parse
pub mod Name
pub mod Path
pub mod Escape
pub mod Tests
