-- ===== src/Rate.antt =====
-- src/net/rate.rs: one byte budget shared by every response in a run.
pub mod Bucket
pub mod Budget
pub mod Wait
pub mod Parse
pub mod Decimal
pub mod Tests
