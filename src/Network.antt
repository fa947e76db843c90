-- ===== src/Network.antt =====
-- The validators of cluster-manager/internal/network/validator.go, for networks and their subnets.
-- The requests for reading end in `IsClusterOwner`, whose answer is an argument.
mod Tests
pub mod SubnetValid
use cdm_center.Prelude.{
  ℕ, String, Bool, true, false, not, ◌&&◌, ◌||◌, Option, none, some, List, [], ◌∷◌, ◌==◌,
  if◌then◌else◌, String-Eq, ℕ-Eq,
}
use cdm_center.Errors.{Error, Param}
use cdm_center.Connection.{
  Formats, first_error, refuse, required, too_long, ConnectionInfo, check_uuid, check_tenant,
  check_each, check_valid_cluster_connection_info,
}

pub record DhcpPool : Type 0 where
  pub start_ip_address : String
  pub end_ip_address : String

pub record Subnet : Type 0 where
  pub uuid : String
  pub name : String
  pub description : String
  pub network_cidr : String
  pub dhcp_pools : List DhcpPool
  pub nameservers : List String

pub record Network : Type 0 where
  pub uuid : String
  pub name : String
  pub description : String

-- `tenant` is the uuid of the tenant, if there is one.
pub record Request : Type 0 where
  pub conn : ConnectionInfo
  pub tenant : Option String
  pub network : Option Network
  pub subnet : Option Subnet

unfoldable pub validate_network : Option Error → ℕ → ℕ → Option Error
unfolding first_error refuse
validate_network owner cluster_id network_id = first_error (
    refuse (cluster_id == 0) (required "cluster_id")
    ∷ refuse (network_id == 0) (required "cluster_network_id")
    ∷ owner
    ∷ [])

unfoldable pub validate_network_by_uuid : Option Error → ℕ → String → Option Error
unfolding first_error refuse
validate_network_by_uuid owner cluster_id uuid = first_error (
    refuse (cluster_id == 0) (required "cluster_id")
    ∷ refuse (uuid == "") (required "uuid")
    ∷ owner
    ∷ [])

-- what the query for the tenant brings
pub data TenantAnswer : Type 0 where
  tenant_found tenant_not_found tenant_unusable : TenantAnswer

unfoldable pub check_listed_tenant : TenantAnswer → ℕ → Option Error
check_listed_tenant TenantAnswer.tenant_found id = none
check_listed_tenant TenantAnswer.tenant_not_found id =
    some (Error.invalid_parameter_number (Param.plain "cluster_tenant_id") id)
check_listed_tenant TenantAnswer.tenant_unusable id = some Error.unusable_database

unfoldable pub validate_network_list : Option Error → TenantAnswer → ℕ → ℕ → Option Error
unfolding first_error refuse check_listed_tenant
validate_network_list owner answer cluster_id tenant_id = first_error (
    refuse (cluster_id == 0) (required "cluster_id")
    ∷ owner
    ∷ (if not (tenant_id == 0) then check_listed_tenant answer tenant_id else none)
    ∷ [])

unfoldable pub check_named_network : Formats → Option Network → Option Error
unfolding first_error refuse
check_named_network f none = some (required "network")
check_named_network f (some n) =
    first_error
      (too_long f "network.name" n.name ∷ too_long f "network.description" n.description ∷ [])

unfoldable pub validate_create_cluster_network : Formats → Request → Option Error
unfolding first_error check_valid_cluster_connection_info check_tenant check_named_network
validate_create_cluster_network f req = first_error (
    check_valid_cluster_connection_info f req.conn
    ∷ check_tenant f req.tenant
    ∷ check_named_network f req.network
    ∷ [])

unfoldable pub check_network_uuid : Formats → Option Network → Option Error
unfolding check_uuid
check_network_uuid f none = some (required "network")
check_network_uuid f (some n) = check_uuid f (Param.plain "network.uuid") n.uuid

unfoldable pub validate_delete_cluster_network : Formats → Request → Option Error
unfolding first_error check_valid_cluster_connection_info check_tenant check_network_uuid
validate_delete_cluster_network f req = first_error (
    check_valid_cluster_connection_info f req.conn
    ∷ check_tenant f req.tenant
    ∷ check_network_uuid f req.network
    ∷ [])

unfoldable pub validate_get_cluster_subnet : Option Error → ℕ → ℕ → Option Error
unfolding first_error refuse
validate_get_cluster_subnet owner cluster_id subnet_id = first_error (
    refuse (cluster_id == 0) (required "cluster_id")
    ∷ refuse (subnet_id == 0) (required "cluster_subnet_id")
    ∷ owner
    ∷ [])

-- an address that is given and is one, by `govalidator.IsIP`
unfoldable pub check_address : (String → Bool) → Param → String → Option Error
unfolding first_error refuse
check_address is_ip p s = first_error (
    refuse (s == "") (Error.required_parameter p)
    ∷ refuse (not (is_ip s)) (Error.format_mismatch_parameter_value p s "IP")
    ∷ [])

unfoldable pub check_dhcp_pool : (String → Bool) → ℕ → DhcpPool → Option Error
unfolding first_error check_address
check_dhcp_pool is_ip i p = first_error (
    check_address is_ip (Param.indexed "subnet.dhcp_pools" i "start_ip_address") p.start_ip_address
    ∷ check_address is_ip (Param.indexed "subnet.dhcp_pools" i "end_ip_address") p.end_ip_address
    ∷ [])

unfoldable pub check_nameserver : (String → Bool) → ℕ → String → Option Error
unfolding check_address
check_nameserver is_ip i s =
    check_address is_ip (Param.indexed "subnet.nameservers" i "nameserver") s

-- what is checked of a subnet, in order
unfoldable pub subnet_checks : Formats → (String → Bool) → Subnet → List (Option Error)
unfolding refuse check_each check_dhcp_pool check_nameserver
subnet_checks f is_ip s =
    too_long f "subnet.name" s.name
    ∷ too_long f "subnet.description" s.description
    ∷ refuse (s.network_cidr == "") (required "subnet.network_cidr")
    ∷ refuse (not (f.is_cidr s.network_cidr)) (
        Error.format_mismatch_parameter_value (Param.plain "subnet.network_cidr") s.network_cidr
          "CIDR")
    ∷ check_each (check_dhcp_pool is_ip) 0 s.dhcp_pools
    ∷ check_each (check_nameserver is_ip) 0 s.nameservers
    ∷ []

unfoldable pub check_subnet : Formats → (String → Bool) → Option Subnet → Option Error
unfolding first_error subnet_checks
check_subnet f is_ip none = some (required "subnet")
check_subnet f is_ip (some s) = first_error (subnet_checks f is_ip s)

unfoldable pub validate_create_cluster_subnet : Formats → (String → Bool) → Request → Option Error
unfolding first_error check_valid_cluster_connection_info check_tenant check_network_uuid
    check_subnet
validate_create_cluster_subnet f is_ip req = first_error (
    check_valid_cluster_connection_info f req.conn
    ∷ check_tenant f req.tenant
    ∷ check_network_uuid f req.network
    ∷ check_subnet f is_ip req.subnet
    ∷ [])

unfoldable pub check_subnet_uuid : Formats → Option Subnet → Option Error
unfolding check_uuid
check_subnet_uuid f none = some (required "subnet")
check_subnet_uuid f (some s) = check_uuid f (Param.plain "subnet.uuid") s.uuid

unfoldable pub validate_delete_cluster_subnet : Formats → Request → Option Error
unfolding first_error check_valid_cluster_connection_info check_tenant check_network_uuid
    check_subnet_uuid
validate_delete_cluster_subnet f req = first_error (
    check_valid_cluster_connection_info f req.conn
    ∷ check_tenant f req.tenant
    ∷ check_network_uuid f req.network
    ∷ check_subnet_uuid f req.subnet
    ∷ [])
