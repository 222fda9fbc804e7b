-- ===== src/Service/Safe.antt =====
-- daemon/src/service.rs: the values that the service asks the kernel for are in the kernel's ranges.
pub mod Cells
pub mod Processes
pub mod Children
pub mod Refresh
pub mod Sessions
