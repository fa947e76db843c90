-- ===== src/Leader/Tests.antt =====
-- Checks of concrete services.
use cdm_center.Prelude.{
  ◌≤◌, arith, String, true, false, none, some, [], ◌∷◌, ◌≡◌, refl, String-Eq, inl, inr,
}
use cdm_center.Prelude.Dict.{Dict, lookup}
use cdm_center.Prelude.Lists.{All}
use cdm_center.Errors.{Error}
use cdm_center.Constant.{cluster_state_active, cluster_state_inactive, cluster_state_warning}
use cdm_center.Leader.Service.{
  StorageServices, Agent, StorageStatus, ExcludedCluster, ClusterServiceStatus,
}
use cdm_center.Leader.Check.{
  check_storage_warning, unavailable, is_excluded_storage, matches, or_nil,
}
use cdm_center.Leader.Check.Warning.{last_that, check_storage_warning-last}
use cdm_center.Leader.Compute
use cdm_center.Leader.Compute.{get_compute_service_list, check_compute_warning-ignores_exclusions}
use cdm_center.Leader.CheckStatus.{check_status, count_matches}
use cdm_center.Leader.CheckStatus.Counting.{any_down, all_excluded, check_status-excluded}
use cdm_center.Leader.CheckCluster.{Env, Leader, check_cluster}
use cdm_center.Leader.CheckCluster.Healthy.{check_cluster-healthy}
use cdm_center.Leader.CheckCluster.Verdict.{verdicts, check_cluster-status}

abbrev down_volume : String → StorageServices
down_volume host = record {
  id = "";
  binary = "cinder-volume";
  backend_name = "lvm";
  host = host;
  zone = "nova";
  status = unavailable;
  updated_at = "";
  exception = false;
  deleted = false;
}

abbrev agent : Agent
agent = record {
  id = "a1";
  type = "L3 agent";
  binary = "neutron-l3-agent";
  host = "n1";
  status = unavailable;
  heartbeat_timestamp = "";
  exception = false;
  deleted = false;
}

abbrev second_host : Dict String StorageStatus
second_host =
    ("s2", record { binary = "cinder-volume"; host = "h2"; zone = "nova"; exception = true }) ∷ []

abbrev second_excluded : ExcludedCluster
second_excluded = record { storage = some second_host; compute = some []; network = some [] }

-- The first service is not excluded, and yet the state is active.
check_storage_warning-last_example :
    (check_storage_warning (down_volume "h1" ∷ down_volume "h2" ∷ []) (some second_excluded)).0
    ≡ cluster_state_active
unfolding last_that is_excluded_storage matches
check_storage_warning-last_example =
    check_storage_warning-last (down_volume "h1" ∷ down_volume "h2" ∷ []) (some second_excluded)

abbrev given : ClusterServiceStatus
given = record {
  cluster_id = 1;
  storage = down_volume "h1" ∷ down_volume "h2" ∷ [];
  compute = [];
  network = [];
  status = cluster_state_active;
  is_new = false;
  storage_error = "";
  compute_error = "";
  network_error = "";
}

matched_once : All (λ v. count_matches v second_host ≤ 1) given.storage
unfolding count_matches matches
matched_once = ground arith

check_status-excluded_example :
    (check_status (some second_excluded) given).0 ≡ cluster_state_warning
unfolding any_down all_excluded count_matches matches
check_status-excluded_example = check_status-excluded second_host [] [] given matched_once

-- The list of storage services fails with a remote error, the others come back empty.
abbrev storage_fails : Env
storage_fails = record {
  synchronizer_error = none;
  storage_list = λ i. inl Error.remote_server_error;
  compute_list = λ i. inr [];
  network_list = λ i. inr [];
  set_unknown_storages_error = λ i. none;
  set_unknown_hypervisor_error = λ i. none;
  update_storages_error = λ i. none;
  update_hypervisor_error = λ i. none;
  text = λ e. "remote";
}

abbrev leader : Leader
leader = record {
  open_stack = false;
  opts_excluded = none;
  opts_check_cluster = none;
  excluded = [];
}

check_cluster-status_example :
    (check_cluster storage_fails 1 leader).status ≡ cluster_state_inactive
unfolding verdicts lookup
check_cluster-status_example = check_cluster-status storage_fails 1 leader refl refl

abbrev stopped : Compute.Service
stopped = record {
  id = "c1";
  binary = "nova-compute";
  host = "h1";
  zone_name = "nova";
  status = "enabled";
  state = "down";
  updated_at = "";
}

abbrev first_excluded : ExcludedCluster
first_excluded = record {
  storage = none;
  compute = some (("c1", record { exception = true }) ∷ []);
  network = none;
}

first_excluded-none : lookup "" (or_nil first_excluded.compute) ≡ none
unfolding lookup
first_excluded-none = refl

-- All three lists come back, with one agent that is available.
abbrev all_up : Env
all_up = record storage_fails {
  storage_list = λ i. inr [];
  network_list = λ i. inr (record agent { status = "available" } ∷ []);
}

check_cluster-healthy_example : (check_cluster all_up 1 leader).status ≡ cluster_state_active
check_cluster-healthy_example =
    check_cluster-healthy all_up 1 leader [] [] (record agent { status = "available" } ∷ []) refl
      refl refl refl refl refl refl refl refl refl
