-- ===== src/Constant.antt =====
-- The codes of cluster-manager/constant/codes.go that the modelled code uses.
use cdm_center.Prelude.{String}

abbrev pub cluster_type_openstack : String
cluster_type_openstack = "cluster.type.openstack"

abbrev pub cluster_state_active : String
cluster_state_active = "cluster.state.active"

abbrev pub cluster_state_inactive : String
cluster_state_inactive = "cluster.state.inactive"

abbrev pub cluster_state_warning : String
cluster_state_warning = "cluster.state.warning"

abbrev pub cluster_sync_state_code_init : String
cluster_sync_state_code_init = "cluster.sync.state.init"

abbrev pub cluster_sync_state_code_running : String
cluster_sync_state_code_running = "cluster.sync.state.running"

abbrev pub cluster_sync_state_code_done : String
cluster_sync_state_code_done = "cluster.sync.state.done"

abbrev pub cluster_sync_state_code_failed : String
cluster_sync_state_code_failed = "cluster.sync.state.failed"

abbrev pub cluster_sync_state_code_unknown : String
cluster_sync_state_code_unknown = "cluster.sync.state.unknown"
