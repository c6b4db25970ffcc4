-- ===== src/Lists.antt =====
-- The lists of targets and of open connections, and the closing of connections.
pub mod Targets
pub mod Closing
pub mod Connections
mod Tests
