-- ===== src/Ipc.antt =====
-- Inter-process communication between a manager and its nodes.
pub mod Descriptor
pub mod Layout
pub mod Drain
pub mod Node
pub mod Manager
pub mod Spawn
pub mod Client
