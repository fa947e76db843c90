-- ===== src/Cluster.antt =====
-- The package cluster-manager/internal/cluster.
mod Tests
pub mod Store
pub mod Memory
pub mod Status
pub mod Owner
