-- ===== src/Kube.antt =====
-- services/kube-management/kube-management.service.ts: the entries that the client generates for a
-- kube daemon, merging them into the user's kube config, and removing the stale ones from it.
pub mod Config
pub mod Entries
pub mod Merge
pub mod Filter
pub mod Stale
pub mod Filtered
pub mod Outcome
pub mod Matching
mod Tests
