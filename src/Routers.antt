-- ===== src/Routers.antt =====
-- Routers: what the requests and answers hold, and `CreateRouter` of
-- cluster-manager/client/openstack/openstack.go; Deletion has `DeleteRouter`. The calls of
-- cluster-manager/client/openstack/train are a parameter, whose state is that of the cloud.
pub mod Deletion
pub mod Cloud
pub mod Interfaces
pub mod Cut
pub mod Undone
pub mod Leak
pub mod Removed
mod Tests
use cdm_center.Prelude.{
  String, Bool, true, false, not, Option, none, some, List, [], ◌∷◌, ◌++◌, map, ◌==◌, ◌||◌,
  if◌then◌else◌, String-Eq,
}
use cdm_center.Errors.{Error, is_remote_server_error}
use cdm_center.Steps.{and_then}
use cdm_center.Cluster.Store.{Result}
use cdm_center.Instances.{FixedIp, PortRequest}

-- `ExtraRoute`
pub record Route : Type 0 where
  pub destination : String
  pub nexthop : String

-- `RouterResult`, with `ExternalGatewayInfo`, and the raw answer
pub record RouterResult : Type 0 where
  pub uuid : String
  pub name : String
  pub description : Option String
  pub project_id : String
  pub state : Bool
  pub status : String
  pub routes : List Route
  pub external_network : String
  pub external_fixed_ips : List FixedIp
  pub raw : String

-- `PortResult` as the code reads it
pub record Port : Type 0 where
  pub uuid : String
  pub network_uuid : String
  pub fixed_ips : List FixedIp
  pub project_id : String

-- What the code calls of the package train, the uuid of the router first.
pub record Train (S : Type 0) : Type 0 where
  pub create_router : RouterResult → S → S × Result RouterResult Error
  pub create_port : PortRequest → S → S × Result String Error
  pub add_interface : String → String → S → S × Option Error
  pub list_ports : String → S → Result (List Port) Error
  pub add_routes : String → List Route → S → S × Result (List Route) Error
  pub remove_routes : String → List Route → S → S × Option Error
  pub remove_interface : String → String → S → S × Option Error
  pub show_router : String → S → Result RouterResult Error
  pub delete_router : String → S → S × Option Error

-- `CreateRoutingInterface`, by the uuids of the network and the subnet
pub record RoutingInterface : Type 0 where
  pub network : String
  pub subnet : String
  pub ip_address : String
  pub external_flag : Bool

-- `client.CreateRouterRequest`
pub record CreateRouterRequest : Type 0 where
  pub tenant : String
  pub name : String
  pub description : Option String
  pub state : String
  pub extra_routes : List Route
  pub externals : List RoutingInterface
  pub internals : List RoutingInterface

-- `client.CreateRouterResponse`
pub record CreateRouterResponse : Type 0 where
  pub uuid : String
  pub name : String
  pub description : Option String
  pub state : String
  pub status : String
  pub raw : String
  pub extra_routes : List Route
  pub externals : List RoutingInterface
  pub internals : List RoutingInterface

-- The end of a call: it returns, or an index out of range ends it, after the deferred function.
pub data Ended (A : Type 0) : Type 0 where
  returned : Result A Error → Ended A
  panicked : Ended A

-- `boolState`
unfoldable pub bool_state : String → Bool
bool_state state = state == "up" || state == ""

unfoldable pub string_state : Bool → String
string_state up = if up then "up" else "down"

-- the network of the first external interface
unfoldable pub first_network : List RoutingInterface → String
first_network [] = ""
first_network (i ∷ is) = i.network

unfoldable pub push {ℓ} : {A : Type ℓ} → A → Option (List A) → Option (List A)
push x none = none
push x (some xs) = some (x ∷ xs)

-- the addresses of the gateway, if all interfaces are in one network
unfoldable pub gateway_ips : String → List RoutingInterface → Option (List FixedIp)
unfolding push
gateway_ips network [] = some []
gateway_ips network (i ∷ is) = elim (network == i.network) [
  | false ↦ none
  | true ↦
      push (record { ip_address = i.ip_address; subnet_uuid = i.subnet }) (gateway_ips network is)
]

-- an internal interface of the answer; none where the port has no address
unfoldable pub internal_of : Port → List FixedIp → Option RoutingInterface
internal_of p [] = none
internal_of p (ip ∷ ips) = some (record {
  network = p.network_uuid;
  subnet = ip.subnet_uuid;
  ip_address = ip.ip_address;
  external_flag = false;
})

-- the internal interfaces of the answer; none where an index is out of range
unfoldable pub internals_of : List Port → Option (List RoutingInterface)
unfolding internal_of push
internals_of [] = some []
internals_of (p ∷ ps) = elim (p.project_id == "") [
  | true ↦ internals_of ps
  | false ↦ elim (internal_of p p.fixed_ips) [ none ↦ none | some i ↦ push i (internals_of ps) ]
]

unfoldable pub external_of : String → FixedIp → RoutingInterface
external_of network ip = record {
  network = network;
  subnet = ip.subnet_uuid;
  ip_address = ip.ip_address;
  external_flag = true;
}

unfoldable pub router_request : CreateRouterRequest → List FixedIp → RouterResult
unfolding bool_state first_network
router_request req ips = record {
  uuid = "";
  name = req.name;
  description = req.description;
  project_id = req.tenant;
  state = bool_state req.state;
  status = "";
  routes = [];
  external_network = first_network req.externals;
  external_fixed_ips = ips;
  raw = "";
}

unfoldable pub response : RouterResult → List RoutingInterface → List Route → CreateRouterResponse
unfolding string_state external_of
response r internals routes = record {
  uuid = r.uuid;
  name = r.name;
  description = r.description;
  state = string_state r.state;
  status = r.status;
  raw = r.raw;
  extra_routes = routes;
  externals = map (external_of r.external_network) r.external_fixed_ips;
  internals = internals;
}

unfoldable pub interface_port : RoutingInterface → PortRequest
interface_port i = record {
  network_uuid = i.network;
  security_groups = [];
  fixed_ips = record { ip_address = i.ip_address; subnet_uuid = i.subnet } ∷ [];
}

module _ {S : Type 0} (train : Train S) where
  unfoldable pub remove_interfaces : String → List String → S → S × Option Error
  unfolding and_then
  remove_interfaces router [] s = (s, none)
  remove_interfaces router (p ∷ ps) s =
      and_then (train.remove_interface router p s) (remove_interfaces router ps)

  -- the deferred function, where `rollback` is true; its first error ends it and is only logged
  unfoldable pub undo_router : RouterResult → List String → S → S
  unfolding and_then remove_interfaces
  undo_router r ports s =
      (and_then (train.remove_routes r.uuid r.routes s)
        λ t. and_then (remove_interfaces r.uuid ports t) (train.delete_router r.uuid)).0

  -- the ports that are connected so far, also behind an error
  abbrev pub Connected : Type 0
  Connected = S × List String × Option Error

  unfoldable pub added :
      List String → String → S × Option Error → (List String → S → Connected) → Connected
  added ports p (s, some e) next = (s, ports, some e)
  added ports p (s, none) next = next (ports ++ (p ∷ [])) s

  unfoldable pub add_port :
      String → List String → S × Result String Error → (List String → S → Connected) → Connected
  unfolding added
  add_port router ports (s, Result.error e) next = (s, ports, some e)
  add_port router ports (s, Result.ok p) next = added ports p (train.add_interface router p s) next

  unfoldable pub add_interfaces : String → List RoutingInterface → List String → S → Connected
  unfolding add_port interface_port
  add_interfaces router [] ports s = (s, ports, none)
  add_interfaces router (i ∷ is) ports s =
      add_port router ports (train.create_port (interface_port i) s) (add_interfaces router is)

  abbrev pub Outcome : Type 0
  Outcome = S × Ended CreateRouterResponse

  unfoldable pub fail : RouterResult → List String → S → Error → Outcome
  unfolding undo_router
  fail r ports s e = (undo_router r ports s, returned (Result.error e))

  -- An error of the cloud's server is only logged.
  unfoldable pub with_routes :
      RouterResult → List String → List RoutingInterface → S × Result (List Route) Error → Outcome
  unfolding fail response
  with_routes r ports internals (s, Result.ok routes) =
      (s, returned (Result.ok (response r internals routes)))
  with_routes r ports internals (s, Result.error e) =
      if is_remote_server_error e
      then (s, returned (Result.ok (response r internals [])))
      else fail r ports s e

  -- `if len(routes) > 0`
  unfoldable pub add_extra_routes :
      RouterResult → List String → List RoutingInterface → List Route → S → Outcome
  unfolding with_routes response
  add_extra_routes r ports internals [] s = (s, returned (Result.ok (response r internals [])))
  add_extra_routes r ports internals (x ∷ xs) s =
      with_routes r ports internals (train.add_routes r.uuid (x ∷ xs) s)

  unfoldable pub with_internals :
      RouterResult → List String → List Route → S → Option (List RoutingInterface) → Outcome
  unfolding add_extra_routes undo_router
  with_internals r ports routes s none = (undo_router r ports s, panicked)
  with_internals r ports routes s (some internals) = add_extra_routes r ports internals routes s

  unfoldable pub with_list :
      RouterResult → List String → List Route → S → Result (List Port) Error → Outcome
  unfolding with_internals internals_of fail
  with_list r ports routes s (Result.error e) = fail r ports s e
  with_list r ports routes s (Result.ok list) = with_internals r ports routes s (internals_of list)

  unfoldable pub with_interfaces : RouterResult → List Route → Connected → Outcome
  unfolding with_list fail
  with_interfaces r routes (s, ports, some e) = fail r ports s e
  with_interfaces r routes (s, ports, none) = with_list r ports routes s (train.list_ports r.uuid s)

  unfoldable pub with_router : CreateRouterRequest → S × Result RouterResult Error → Outcome
  unfolding with_interfaces add_interfaces
  with_router req (s, Result.error e) = (s, returned (Result.error e))
  with_router req (s, Result.ok r) =
      with_interfaces r req.extra_routes (add_interfaces r.uuid req.internals [] s)

  unfoldable pub with_gateway : CreateRouterRequest → S → Option (List FixedIp) → Outcome
  unfolding with_router router_request
  with_gateway req s none = (s, returned (Result.error Error.unknown))
  with_gateway req s (some ips) = with_router req (train.create_router (router_request req ips) s)

  unfoldable pub create_router : CreateRouterRequest → S → Outcome
  unfolding with_gateway gateway_ips first_network
  create_router req s = with_gateway req s (gateway_ips (first_network req.externals) req.externals)
