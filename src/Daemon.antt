-- ===== src/Daemon.antt =====
-- The daemon around the service: CPU scheduler parameters (daemon/src/cfs), the D-Bus interface
-- (daemon/src/dbus.rs), and the event loop, the tasks beside it, the command line and the delays at the
-- start (daemon/src/main.rs).
pub mod Cfs
pub mod Bus
pub mod Events
pub mod System
pub mod Commands
pub mod Startup
