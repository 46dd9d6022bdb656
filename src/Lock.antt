-- ===== src/Lock.antt =====
-- src/project/lock.rs and src/project/lock/canonical.rs: the text of data.lock, and its fast reader.
pub mod Format
pub mod Tokens
pub mod Canonical
pub mod Tests
