-- ===== src/Config/Parser.antt =====
-- The configuration's parser (config/src/parser and `parse` of config/src/cfs.rs).
pub mod Profiles
pub mod Rules
pub mod Nodes
pub mod Files
pub mod Ranges
pub mod Assigned
pub mod Whole
pub mod Exceptions
