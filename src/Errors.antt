-- ===== src/Errors.antt =====
-- The errors that the modelled code returns: those of cluster-manager/internal/errors.go,
-- cluster-manager/config/errors.go, cluster-manager/storage/errors.go and
-- cluster-manager/client/errors.go, cluster-manager/client/openstack/errors.go and
-- cluster-manager/sync/errors.go as far as they are met, and the constructors of the common
-- errors package that the code calls. Callers and values that are only logged are left out.
use cdm_center.Prelude.{ℕ, String, Bool, true, false}

-- The name of a request parameter, with an index for `a[%d].b`.
pub data Param : Type 0 where
  plain : String → Param
  indexed : String → ℕ → String → Param

pub data Error : Type 0 where
  required_parameter : Param → Error
  length_overflow_parameter_value : Param → ℕ → Error
  format_mismatch_parameter_value : Param → String → String → Error
  out_of_range_parameter_value : Param → ℕ → ℕ → Error
  unavailable_parameter_value : Param → String → Error
  invalid_parameter_value : Param → String → Error
  -- the same where the value is a number
  unavailable_parameter_number : Param → ℕ → Error
  invalid_parameter_number : Param → ℕ → Error
  unauthorized_request unusable_database unusable_store unknown : Error
  not_found_cluster : ℕ → Error
  not_found_cluster_sync_status : ℕ → Error
  not_found_cluster_exception : ℕ → Error
  unsupported_cluster_type : String → Error
  not_found_config : ℕ → Error
  not_found_storage : ℕ → ℕ → Error
  unsupported_storage_type : String → Error
  not_found_storage_metadata : ℕ → ℕ → Error
  -- cluster-manager/volume/errors.go
  not_found_volume : ℕ → ℕ → Error
  not_found_volume_metadata : ℕ → ℕ → Error
  remote_server_error : Error
  -- `client.ErrNotFound`, and two of cluster-manager/client/openstack/errors.go
  client_not_found not_found_volume_type not_found_instance_hypervisor : Error
  -- cluster-manager/sync/errors.go: the status and the uuid
  volume_status_timeout : String → String → Error
  instance_status_timeout : String → String → Error
  -- cluster-manager/client/openstack/errors.go: the name of the instance
  unknown_instance_state : String → Error
  -- any other error that a call brings back
  other : String → Error

-- `errors.Equal(err, client.ErrRemoteServerError)`
abbrev pub is_remote_server_error : Error → Bool
is_remote_server_error remote_server_error = true
is_remote_server_error _ = false

-- Whether a call of cluster-manager/client/openstack/train that creates has brought a refusal of the
-- cloud. The other two errors also come behind an answer that is lost or cannot be read, where the
-- cloud may have made what it was asked for (train logs that a manual deletion is required).
abbrev pub is_refusal : Error → Bool
is_refusal unknown = false
is_refusal remote_server_error = false
is_refusal _ = true

-- `errors.Equal(err, internal.ErrNotFoundClusterSyncStatus)`
abbrev pub is_not_found_cluster_sync_status : Error → Bool
is_not_found_cluster_sync_status (not_found_cluster_sync_status _) = true
is_not_found_cluster_sync_status _ = false

-- `errors.Equal(err, ErrNotFoundStorageMetadata)`
abbrev pub is_not_found_storage_metadata : Error → Bool
is_not_found_storage_metadata (not_found_storage_metadata _ _) = true
is_not_found_storage_metadata _ = false

-- `errors.Equal(err, ErrNotFoundVolumeMetadata)`
abbrev pub is_not_found_volume_metadata : Error → Bool
is_not_found_volume_metadata (not_found_volume_metadata _ _) = true
is_not_found_volume_metadata _ = false

-- `errors.Equal(err, client.ErrNotFound)`
abbrev pub is_client_not_found : Error → Bool
is_client_not_found client_not_found = true
is_client_not_found _ = false
