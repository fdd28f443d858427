-- ===== src/Http.antt =====
-- The parts of the HTTP client.
pub mod Common
pub mod Headers
pub mod Client
mod Tests
