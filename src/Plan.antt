-- ===== src/Plan.antt =====
-- src/plan.rs: where the files of a lock land in the project.
pub mod Paths
pub mod Expand
pub mod Overlap
pub mod Tests
