-- ===== src/System.antt =====
-- The small parts around the operating system.
pub mod Cli
pub mod Counts
pub mod Environment
pub mod DynamicLib
pub mod Log
pub mod Sockets
mod Tests
