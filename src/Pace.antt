-- ===== src/Pace.antt =====
-- src/net/pace.rs: how often a host lets fetchloom ask.
pub mod State
pub mod Headers
pub mod Learn
pub mod Admit
pub mod Tickets
pub mod Burst
pub mod Windows
pub mod Tests
