-- ===== src/Server.antt =====
-- The server around the matches, api/app.
mod Tests
pub mod Repository
