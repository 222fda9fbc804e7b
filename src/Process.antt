-- ===== src/Process.antt =====
-- Processes and the process map (daemon/src/process.rs).
pub mod Cell
pub mod Table
pub mod Ancestry
pub mod Files
