-- ===== src/Service.antt =====
-- The service (daemon/src/service.rs).
pub mod State
pub mod Conditions
pub mod Assign
pub mod Apply
pub mod Children
pub mod Foreground
pub mod Pipewire
pub mod Refresh
pub mod Valid
pub mod Safe
pub mod Buffers
