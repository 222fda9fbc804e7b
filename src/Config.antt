-- ===== src/Config.antt =====
-- The configuration crate (config/src).
pub mod Policy
pub mod Profile
pub mod Assignments
pub mod Cfs
pub mod Scheduler
pub mod Kdl
pub mod Parser
