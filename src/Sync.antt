-- ===== src/Sync.antt =====
-- The package cluster-manager/sync.
mod Tests
pub mod Resource
pub mod Reserve
pub mod ReservedSync
pub mod Cluster
pub mod Wait
pub mod Zones
