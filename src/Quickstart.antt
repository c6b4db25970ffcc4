-- ===== src/Quickstart.antt =====
-- services/quickstart/quickstart.service.ts and handlers/quickstart/quickstart-handler.ts.
pub mod Hosts
pub mod Types
pub mod Grouping
pub mod Flattened
pub mod Provision
pub mod Keys
pub mod Register
pub mod Handler
mod Tests
