-- ===== src/Hashing.antt =====
-- src/cache/partial/hashing.rs and `Hasher` of src/digest.rs: the hash of a download, kept beside
-- the writes.
pub mod Hasher
pub mod Pipe
pub mod Tests
