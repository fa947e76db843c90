-- ===== src/Leader.antt =====
-- The package cluster-manager/leader.
mod Tests
pub mod Service
pub mod Check
pub mod Compute
pub mod Monitor
pub mod CheckStatus
pub mod CheckCluster
