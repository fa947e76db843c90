-- ===== src/Router.antt =====
-- The validators of cluster-manager/internal/router/validator.go. The requests for reading end in
-- `IsClusterOwner`, whose answer is an argument.
mod Tests
pub mod RouterValid
use cdm_center.Prelude.{
  ℕ, suc, String, Bool, true, false, not, ◌&&◌, ◌||◌, Option, none, some, List, [], ◌∷◌, ◌==◌,
  if◌then◌else◌, ltb, String-Eq, ℕ-Eq,
}
use cdm_center.Errors.{Error, Param}
use cdm_center.Connection.{
  check_each, required, too_long, check_tenant, Formats, first_error, refuse, ConnectionInfo,
  check_uuid, check_valid_cluster_connection_info,
}

-- `govalidator.IsIP`, `IsIPv4` and `IsIPv6`
pub record Addresses : Type 0 where
  pub is_ip : String → Bool
  pub is_ipv4 : String → Bool
  pub is_ipv6 : String → Bool

pub record ExtraRoute : Type 0 where
  pub destination : String
  pub nexthop : String

pub record RoutingInterface : Type 0 where
  pub network_uuid : String
  pub ip_address : String
  pub subnet_uuid : String

pub record Router : Type 0 where
  pub uuid : String
  pub name : String
  pub description : String
  pub state : String
  pub extra_routes : List ExtraRoute
  pub external_routing_interfaces : List RoutingInterface
  pub internal_routing_interfaces : List RoutingInterface

-- `tenant` is the uuid of the tenant, if there is one.
pub record Request : Type 0 where
  pub conn : ConnectionInfo
  pub tenant : Option String
  pub router : Option Router

unfoldable pub check_route : Formats → Addresses → ℕ → ExtraRoute → Option Error
unfolding first_error refuse
check_route f a i e =
    let destination = Param.indexed "router.extra_routes" i "destination" in
    let nexthop = Param.indexed "router.extra_routes" i "nexthop" in
    first_error (
      refuse (e.destination == "") (Error.required_parameter destination)
      ∷ refuse (not (f.is_cidr e.destination))
          (Error.format_mismatch_parameter_value destination e.destination "CIDR")
      ∷ refuse (e.nexthop == "") (Error.required_parameter nexthop)
      ∷ refuse (not (a.is_ip e.nexthop))
          (Error.format_mismatch_parameter_value nexthop e.nexthop "IP")
      ∷ [])

-- the body of the two loops over interfaces, which differ in the list and in the test of an address
unfoldable pub check_interface :
    Formats → (String → Bool) → String → ℕ → RoutingInterface → Option Error
unfolding first_error refuse check_uuid
check_interface f is_address interfaces i r = first_error (
    check_uuid f (Param.indexed interfaces i "network.uuid") r.network_uuid
    ∷ refuse (not (r.ip_address == "") && not (is_address r.ip_address)) (
        Error.format_mismatch_parameter_value (Param.indexed interfaces i "ip_address") r.ip_address
          "IP")
    ∷ check_uuid f (Param.indexed interfaces i "subnet.uuid") r.subnet_uuid
    ∷ [])

-- neither IPv4 nor IPv6, denied
abbrev pub is_ipv4_or_ipv6 : Addresses → String → Bool
is_ipv4_or_ipv6 a s = a.is_ipv4 s || a.is_ipv6 s

-- what is checked of a router, in order
unfoldable pub router_checks : Formats → Addresses → Router → List (Option Error)
unfolding refuse check_route check_interface check_each
router_checks f a r =
    refuse (not (r.state == "") && (not (r.state == "up") && not (r.state == "down")))
      (Error.unavailable_parameter_value (Param.plain "router.state") r.state)
    ∷ too_long f "router.name" r.name
    ∷ too_long f "router.description" r.description
    ∷ check_each (check_route f a) 0 r.extra_routes
    ∷ check_each (check_interface f a.is_ip "router.external_routing_interfaces") 0
        r.external_routing_interfaces
    ∷ check_each (check_interface f (is_ipv4_or_ipv6 a) "router.internal_routing_interfaces") 0
        r.internal_routing_interfaces
    ∷ []

unfoldable pub check_router : Formats → Addresses → Router → Option Error
unfolding first_error router_checks
check_router f a r = first_error (router_checks f a r)

unfoldable pub check_given_router : Formats → Addresses → Option Router → Option Error
unfolding check_router
check_given_router f a none = some (required "router")
check_given_router f a (some r) = check_router f a r

unfoldable pub validate_create_cluster_router : Formats → Addresses → Request → Option Error
unfolding first_error check_valid_cluster_connection_info check_tenant check_given_router
validate_create_cluster_router f a req = first_error (
    check_valid_cluster_connection_info f req.conn
    ∷ check_tenant f req.tenant
    ∷ check_given_router f a req.router
    ∷ [])

unfoldable pub check_router_uuid : Formats → Option Router → Option Error
unfolding check_uuid
check_router_uuid f none = some (required "router")
check_router_uuid f (some r) = check_uuid f (Param.plain "router.uuid") r.uuid

unfoldable pub validate_delete_cluster_router : Formats → Request → Option Error
unfolding first_error check_valid_cluster_connection_info check_tenant check_router_uuid
validate_delete_cluster_router f req = first_error (
    check_valid_cluster_connection_info f req.conn
    ∷ check_tenant f req.tenant
    ∷ check_router_uuid f req.router
    ∷ [])

unfoldable pub validate_get_cluster_router : Option Error → ℕ → ℕ → Option Error
unfolding first_error refuse
validate_get_cluster_router owner cluster_id router_id = first_error (
    refuse (cluster_id == 0) (required "cluster_id")
    ∷ refuse (router_id == 0) (required "cluster_router_id")
    ∷ owner
    ∷ [])

unfoldable pub validate_get_cluster_router_by_uuid : Option Error → ℕ → String → Option Error
unfolding first_error refuse
validate_get_cluster_router_by_uuid owner cluster_id uuid = first_error (
    refuse (cluster_id == 0) (required "cluster_id")
    ∷ refuse (uuid == "") (required "uuid")
    ∷ owner
    ∷ [])

unfoldable pub validate_get_cluster_router_list : Option Error → ℕ → Option Error
unfolding first_error refuse
validate_get_cluster_router_list owner cluster_id =
    first_error (refuse (cluster_id == 0) (required "cluster_id") ∷ owner ∷ [])
