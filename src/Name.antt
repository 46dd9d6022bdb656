-- ===== src/Name.antt =====
-- src/name.rs: names of files, folders and datasets.
pub mod Pieces
pub mod Dataset
pub mod Refused
pub mod Stored
pub mod Sanitize
pub mod Folded
pub mod Tests
