-- ===== src/Split.antt =====
-- src/net/download/split.rs: one large file over several streams at once.
pub mod Board
pub mod Tests
