-- ===== src/Login.antt =====
-- Logging in and out: services/oauth, the parts of services/config that these read and write, and
-- handlers/login and handlers/logout.
pub mod Config
pub mod Tokens
pub mod Listener
pub mod Handler
pub mod ServiceAccount
mod Tests
