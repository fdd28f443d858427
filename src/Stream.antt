-- ===== src/Stream.antt =====
-- The byte streams: StreamWriter and StreamReader.
pub mod Sequences
pub mod Writer
pub mod Reader
