-- ===== src/Daemon.antt =====
-- services/daemon-management/daemon-management.service.ts and the daemon configurations of
-- services/config/config.service.types.ts. A method takes the stored daemons and returns its
-- outcome beside the daemons that it leaves stored.
pub mod Config
pub mod Store
pub mod Service
pub mod Lookup
pub mod Purge
pub mod Statuses
pub mod Running
pub mod Reach
pub mod Disconnecting
mod Tests
