-- ===== src/ErrorCodes.antt =====
-- What a handler answers to an error: `createError` of cluster-manager/handler/util.go. An error wraps
-- one of the errors that the packages declare, and `errors.Equal` tells which.
pub mod Codes
use cdm_center.Prelude.{String, Bool, Option, none, some, List, [], ◌∷◌, ◌++◌, if◌then◌else◌}

-- the errors that packages of the program declare, package by package
pub data Declared : Type 0 where
  -- openstack
  not_found_volume_type not_found_volume_backend_name not_found_available_service_host_name
        not_found_volume_source_name :
      Declared
  not_found_snapshot_source_name not_found_instance_hypervisor not_found_instance_spec
        unknown_instance_state :
      Declared
  import_volume_rollback_failed not_found_nfs_export_path unusable_mirror_volume
        not_found_managed_volume :
      Declared
  -- client
  not_found unauthenticated bad_request unauthorized : Declared
  unauthorized_user not_connected conflict not_found_endpoint : Declared
  unknown remote_server_error : Declared
  -- internal
  not_found_group not_found_cluster not_found_cluster_hypervisor not_found_cluster_network :
      Declared
  not_found_cluster_network_by_uuid not_found_cluster_subnet not_found_cluster_floating_ip
        not_found_cluster_tenant :
      Declared
  not_found_cluster_tenant_by_uuid not_found_cluster_instance not_found_cluster_instance_by_uuid
        not_found_cluster_instance_spec :
      Declared
  not_found_cluster_instance_spec_by_uuid not_found_cluster_keypair unsupported_cluster_type
        not_found_cluster_availability_zone :
      Declared
  not_found_cluster_volume not_found_cluster_volume_by_uuid not_found_cluster_storage
        not_found_router_external_network :
      Declared
  not_found_cluster_router not_found_cluster_router_by_uuid not_found_cluster_security_group
        not_found_cluster_security_group_by_uuid :
      Declared
  not_found_cluster_sync_status current_password_mismatch unable_synchronize_status
        not_found_cluster_exception :
      Declared
  -- clusterStorage
  not_found_storage unsupported_storage_type not_found_storage_metadata : Declared
  -- sync
  volume_status_timeout instance_status_timeout : Declared
  -- volume
  not_found_volume not_found_volume_metadata : Declared

-- the statuses of the answer, which the common errors package makes
pub data Status : Type 0 where
  status_not_found status_bad_request status_unauthenticated status_unauthorized : Status
  status_conflict status_internal_server_error : Status

-- the cases of the switch
abbrev pub error_code : Declared → String
error_code not_found_volume_type = "not_found_volume_type"
error_code not_found_volume_backend_name = "not_found_volume_backend_name"
error_code not_found_available_service_host_name = "not_found_available_service_host_name"
error_code not_found_volume_source_name = "not_found_volume_source_name"
error_code not_found_snapshot_source_name = "not_found_snapshot_source_name"
error_code not_found_instance_hypervisor = "not_found_instance_hypervisor"
error_code not_found_instance_spec = "not_found_instance_spec"
error_code unknown_instance_state = "unknown_instance_state"
error_code import_volume_rollback_failed = "import_volume_rollback_failed"
error_code not_found_nfs_export_path = "not_found_NFS_export_path"
error_code unusable_mirror_volume = "unusable_mirror_volume"
error_code not_found_managed_volume = "not_found_managed_volume"
error_code not_found = "not_found"
error_code unauthenticated = "unauthenticated"
error_code bad_request = "bad_request"
error_code unauthorized = "unauthorized"
error_code unauthorized_user = "unauthorized_user"
error_code not_connected = "not_connected"
error_code conflict = "conflict"
error_code not_found_endpoint = "not_found_endpoint"
error_code unknown = "unknown"
error_code remote_server_error = "remote_server_error"
error_code not_found_group = "not_found_group"
error_code not_found_cluster = "not_found_cluster"
error_code not_found_cluster_hypervisor = "not_found_cluster_hypervisor"
error_code not_found_cluster_network = "not_found_cluster_network"
error_code not_found_cluster_network_by_uuid = "not_found_cluster_network_by_uuid"
error_code not_found_cluster_subnet = "not_found_cluster_subnet"
error_code not_found_cluster_floating_ip = "not_found_cluster_floating_ip"
error_code not_found_cluster_tenant = "not_found_cluster_tenant"
error_code not_found_cluster_tenant_by_uuid = "not_found_cluster_tenant_by_uuid"
error_code not_found_cluster_instance = "not_found_cluster_instance"
error_code not_found_cluster_instance_by_uuid = "not_found_cluster_instance_by_uuid"
error_code not_found_cluster_instance_spec = "not_found_cluster_instance_spec"
error_code not_found_cluster_instance_spec_by_uuid = "not_found_cluster_instance_spec_by_uuid"
error_code not_found_cluster_keypair = "not_found_cluster_keypair"
error_code unsupported_cluster_type = "unsupported_cluster_type"
error_code not_found_cluster_availability_zone = "not_found_cluster_availability_zone"
error_code not_found_cluster_volume = "not_found_cluster_volume"
error_code not_found_cluster_volume_by_uuid = "not_found_cluster_volume_by_uuid"
error_code not_found_cluster_storage = "not_found_cluster_storage"
error_code not_found_router_external_network = "not_found_router_external_network"
error_code not_found_cluster_router = "not_found_cluster_router"
error_code not_found_cluster_router_by_uuid = "not_found_cluster_router_by_uuid"
error_code not_found_cluster_security_group = "not_found_cluster_security_group"
error_code not_found_cluster_security_group_by_uuid = "not_found_cluster_security_group_by_uuid"
error_code not_found_cluster_sync_status = "not_found_cluster_sync_status"
error_code current_password_mismatch = "current_password_mismatch"
error_code unable_synchronize_status = "unable_to_synchronize_because_of_status"
error_code not_found_cluster_exception = "not_found_cluster_sync_exception"
error_code not_found_storage = "not_found_storage"
error_code unsupported_storage_type = "unsupported_storage_type"
error_code not_found_storage_metadata = "not_found_storage_metadata"
error_code volume_status_timeout = "volume_status_timeout"
error_code instance_status_timeout = "instance_status_timeout"
error_code not_found_volume = "not_found_volume"
error_code not_found_volume_metadata = "not_found_volume_metadata"

abbrev pub error_status : Declared → Status
error_status not_found_volume_type = Status.status_not_found
error_status not_found_volume_backend_name = Status.status_not_found
error_status not_found_available_service_host_name = Status.status_not_found
error_status not_found_volume_source_name = Status.status_not_found
error_status not_found_snapshot_source_name = Status.status_not_found
error_status not_found_instance_hypervisor = Status.status_not_found
error_status not_found_instance_spec = Status.status_not_found
error_status unknown_instance_state = Status.status_bad_request
error_status import_volume_rollback_failed = Status.status_internal_server_error
error_status not_found_nfs_export_path = Status.status_not_found
error_status unusable_mirror_volume = Status.status_bad_request
error_status not_found_managed_volume = Status.status_not_found
error_status not_found = Status.status_not_found
error_status unauthenticated = Status.status_unauthenticated
error_status bad_request = Status.status_bad_request
error_status unauthorized = Status.status_unauthorized
error_status unauthorized_user = Status.status_unauthorized
error_status not_connected = Status.status_internal_server_error
error_status conflict = Status.status_conflict
error_status not_found_endpoint = Status.status_not_found
error_status unknown = Status.status_bad_request
error_status remote_server_error = Status.status_bad_request
error_status not_found_group = Status.status_internal_server_error
error_status not_found_cluster = Status.status_not_found
error_status not_found_cluster_hypervisor = Status.status_not_found
error_status not_found_cluster_network = Status.status_not_found
error_status not_found_cluster_network_by_uuid = Status.status_not_found
error_status not_found_cluster_subnet = Status.status_not_found
error_status not_found_cluster_floating_ip = Status.status_not_found
error_status not_found_cluster_tenant = Status.status_not_found
error_status not_found_cluster_tenant_by_uuid = Status.status_not_found
error_status not_found_cluster_instance = Status.status_not_found
error_status not_found_cluster_instance_by_uuid = Status.status_not_found
error_status not_found_cluster_instance_spec = Status.status_not_found
error_status not_found_cluster_instance_spec_by_uuid = Status.status_not_found
error_status not_found_cluster_keypair = Status.status_not_found
error_status unsupported_cluster_type = Status.status_bad_request
error_status not_found_cluster_availability_zone = Status.status_not_found
error_status not_found_cluster_volume = Status.status_not_found
error_status not_found_cluster_volume_by_uuid = Status.status_not_found
error_status not_found_cluster_storage = Status.status_not_found
error_status not_found_router_external_network = Status.status_not_found
error_status not_found_cluster_router = Status.status_not_found
error_status not_found_cluster_router_by_uuid = Status.status_not_found
error_status not_found_cluster_security_group = Status.status_not_found
error_status not_found_cluster_security_group_by_uuid = Status.status_not_found
error_status not_found_cluster_sync_status = Status.status_not_found
error_status current_password_mismatch = Status.status_bad_request
error_status unable_synchronize_status = Status.status_bad_request
error_status not_found_cluster_exception = Status.status_bad_request
error_status not_found_storage = Status.status_not_found
error_status unsupported_storage_type = Status.status_bad_request
error_status not_found_storage_metadata = Status.status_not_found
error_status volume_status_timeout = Status.status_internal_server_error
error_status instance_status_timeout = Status.status_internal_server_error
error_status not_found_volume = Status.status_not_found
error_status not_found_volume_metadata = Status.status_not_found

-- the cases of the switch, package by package, in its order
abbrev pub openstack_cases : List Declared
openstack_cases =
    not_found_volume_type ∷ not_found_volume_backend_name ∷ not_found_available_service_host_name
    ∷ not_found_volume_source_name ∷ not_found_snapshot_source_name ∷ not_found_instance_hypervisor
    ∷ not_found_instance_spec ∷ unknown_instance_state ∷ import_volume_rollback_failed
    ∷ not_found_nfs_export_path ∷ unusable_mirror_volume ∷ not_found_managed_volume ∷ []

abbrev pub client_cases : List Declared
client_cases =
    not_found ∷ unauthenticated ∷ bad_request ∷ unauthorized ∷ unauthorized_user ∷ not_connected
    ∷ conflict ∷ not_found_endpoint ∷ unknown ∷ remote_server_error ∷ []

abbrev pub internal_cases : List Declared
internal_cases =
    not_found_group ∷ not_found_cluster ∷ not_found_cluster_hypervisor ∷ not_found_cluster_network
    ∷ not_found_cluster_network_by_uuid ∷ not_found_cluster_subnet ∷ not_found_cluster_floating_ip
    ∷ not_found_cluster_tenant ∷ not_found_cluster_tenant_by_uuid ∷ not_found_cluster_instance
    ∷ not_found_cluster_instance_by_uuid ∷ not_found_cluster_instance_spec
    ∷ not_found_cluster_instance_spec_by_uuid ∷ not_found_cluster_keypair ∷ unsupported_cluster_type
    ∷ not_found_cluster_availability_zone ∷ not_found_cluster_volume
    ∷ not_found_cluster_volume_by_uuid ∷ not_found_cluster_storage
    ∷ not_found_router_external_network ∷ not_found_cluster_router
    ∷ not_found_cluster_router_by_uuid ∷ not_found_cluster_security_group
    ∷ not_found_cluster_security_group_by_uuid ∷ not_found_cluster_sync_status
    ∷ current_password_mismatch ∷ unable_synchronize_status ∷ not_found_cluster_exception ∷ []

abbrev pub storage_cases : List Declared
storage_cases = not_found_storage ∷ unsupported_storage_type ∷ not_found_storage_metadata ∷ []

abbrev pub sync_cases : List Declared
sync_cases = volume_status_timeout ∷ instance_status_timeout ∷ []

abbrev pub volume_cases : List Declared
volume_cases = not_found_volume ∷ not_found_volume_metadata ∷ []

abbrev pub switch : List Declared
switch =
    openstack_cases ++ client_cases ++ internal_cases ++ storage_cases ++ sync_cases ++ volume_cases

pub record Answer : Type 0 where
  pub status : Status
  pub code : String

-- The first case whose error equals the one that is answered; `none` is the default case, which
-- leaves the answer to the common packages.
unfoldable pub first_case : (Declared → Bool) → List Declared → Option Answer
first_case equal [] = none
first_case equal (d ∷ ds) =
    let rest = first_case equal ds in
    if equal d then some (record { status = error_status d; code = error_code d }) else rest

-- by `errors.Equal(err, d)` for the error that is not nil
unfoldable pub create_error : (Declared → Bool) → Option Answer
unfolding first_case
create_error equal = first_case equal switch
