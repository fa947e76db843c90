-- ===== src/Routers/Tests.antt =====
-- Runs on a cloud with one router and one port.
mod SmallCloud
mod CloudLaws
use cdm_center.Prelude.{
  String, Bool, true, false, ◌&&◌, ◌||◌, Option, none, some, List, [], ◌∷◌, ◌++◌, ◌≡◌, refl, map,
  if◌then◌else◌, ◌==◌, String-Eq,
}
use cdm_center.Prelude.Lists.{any}
use cdm_center.Errors.{Error}
use cdm_center.Steps.{and_then, named}
use cdm_center.Cluster.Store.{Result}
use cdm_center.Instances.Ports.{listed}
use cdm_center.Routers.{
  RoutingInterface, CreateRouterRequest, create_router, router_request, bool_state, first_network,
  gateway_ips, remove_interfaces, with_gateway, with_router, with_interfaces, with_list,
  with_internals, add_extra_routes, add_interfaces, add_port, added, internals_of, internal_of,
  push, interface_port, fail, response, returned, undo_router, string_state, external_of,
}
use cdm_center.Routers.Deletion.{
  delete_router, remove_shown_routes, port_ids, delete_shown, delete_listed,
}
use cdm_center.Routers.Undone.{is_refused, Complete, create_router-undone, create_router-Complete}
use cdm_center.Routers.Leak.{create_router-leaves_port}
use cdm_center.Routers.Interfaces.{Left}
use cdm_center.Routers.Removed.{delete_router-Gone}
use cdm_center.Routers.Tests.SmallCloud.{
  World, nothing, routed, routed_port, linked, linked_port, made_router, cloud, has_the_router,
  has_the_port, router_of_port,
}
use cdm_center.Routers.Tests.CloudLaws.{laws, removes}

abbrev interface : RoutingInterface
interface = record { network = "n"; subnet = "sub"; ip_address = "10.0.0.1"; external_flag = false }

abbrev request : CreateRouterRequest
request = record {
  tenant = "t";
  name = "router";
  description = none;
  state = "up";
  extra_routes = [];
  externals = [];
  internals = interface ∷ [];
}

good_run :
    (create_router (cloud true) request nothing).1
    ≡ returned (Result.ok (response (made_router (router_request request [])) (interface ∷ []) []))
unfolding create_router with_gateway with_router with_interfaces with_list with_internals
    add_extra_routes add_interfaces add_port added internals_of internal_of push gateway_ips
    first_network interface_port
good_run = refl

create_router-Complete_example :
    Complete
      (cloud true)
      (laws true)
      (removes true)
      1
      "r"
      nothing
      (create_router (cloud true) request nothing).0
unfolding response
create_router-Complete_example =
    create_router-Complete (cloud true) (laws true) (removes true) request nothing
      (response (made_router (router_request request [])) (interface ∷ []) []) good_run

bad_run :
    (create_router (cloud false) request nothing).1
    ≡ returned (Result.error (Error.other "conflict"))
unfolding create_router with_gateway with_router with_interfaces add_interfaces add_port added
    gateway_ips first_network interface_port fail
bad_run = refl

bad_refused : is_refused (create_router (cloud false) request nothing).1 ≡ true
bad_refused = rw bad_run refl

create_router-undone_example :
    (left : List String) × Left
      (cloud false)
      (laws false)
      left
      nothing
      (create_router (cloud false) request nothing).0
create_router-undone_example =
    create_router-undone (cloud false) (laws false) (removes false) request nothing bad_refused

no_gateway : gateway_ips (first_network request.externals) request.externals ≡ some []
unfolding gateway_ips
no_gateway = refl

create_router-leaves_port_example :
    (has_the_port "p" nothing ≡ false)
    × (has_the_port "p" (create_router (cloud false) request nothing).0 ≡ true)
create_router-leaves_port_example =
    create_router-leaves_port (cloud false) (laws false) (removes false) request interface [] []
      (made_router (router_request request [])) "p" (Error.other "conflict") nothing routed
      routed_port routed_port refl no_gateway refl refl refl refl

delete_run : delete_router (cloud true) "r" linked ≡ (nothing, none)
unfolding delete_router delete_listed delete_shown remove_shown_routes remove_interfaces port_ids
    and_then
delete_run = refl

delete_router-Gone_example :
    ((x : String)
      → has_the_router x nothing ≡ (if x == "r" then false else has_the_router x linked))
    × ((q : String)
        → has_the_port q nothing
          ≡ (if named "r" (router_of_port q linked) then false else has_the_port q linked))
delete_router-Gone_example =
    delete_router-Gone (cloud true) (laws true) "r" linked nothing delete_run
