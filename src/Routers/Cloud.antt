-- ===== src/Routers/Cloud.antt =====
-- What cluster-manager/client/openstack/openstack.go relies on of the cloud when it creates and
-- deletes routers. Ports are those that are not a gateway's. A creation or
-- connection that the cloud refuses has changed nothing; nothing is said of one whose answer could
-- not be read.
use cdm_center.Prelude.{
  String, Bool, true, false, Option, none, some, List, ◌≡◌, ◌≢◌, ◌==◌, ◌&&◌, if◌then◌else◌,
  String-Eq,
}
use cdm_center.Errors.{Error, is_refusal}
use cdm_center.Steps.{named}
use cdm_center.Cluster.Store.{Result}
use cdm_center.Instances.{PortRequest}
use cdm_center.Instances.Ports.{listed}
use cdm_center.Routers.{Port, Route, RouterResult, Train}
use cdm_center.Routers.Deletion.{port_ids}

pub record Lawful {S : Type 0} (train : Train S) : Type 0 where
  pub has_router : String → S → Bool
  pub has_port : String → S → Bool
  -- the router that a port is connected with
  pub router_of : String → S → Option String
  -- whether a router has extra routes
  pub has_routes : String → S → Bool
  pub router_of-has_router : (p r : String) (s : S) → router_of p s ≡ some r → has_router r s ≡ true
  pub create_router-made :
      (q : RouterResult) (s t : S) (r : RouterResult)
      → train.create_router q s ≡ (t, Result.ok r)
      → (has_router r.uuid s ≡ false)
        × ((x : String) → has_router x t ≡ (if x == r.uuid then true else has_router x s))
        × ((p : String) → has_port p t ≡ has_port p s)
        × ((p : String) → router_of p t ≡ router_of p s)
  pub create_router-refused :
      (q : RouterResult) (s t : S) (e : Error)
      → train.create_router q s ≡ (t, Result.error e)
      → is_refusal e ≡ true
      → ((x : String) → has_router x t ≡ has_router x s)
        × ((p : String) → has_port p t ≡ has_port p s)
  pub create_port-made :
      (q : PortRequest) (s t : S) (p : String)
      → train.create_port q s ≡ (t, Result.ok p)
      → (has_port p s ≡ false)
        × ((y : String) → has_port y t ≡ (if y == p then true else has_port y s))
        × ((x : String) → has_router x t ≡ has_router x s)
        × ((y : String) → router_of y t ≡ router_of y s)
  pub create_port-refused :
      (q : PortRequest) (s t : S) (e : Error)
      → train.create_port q s ≡ (t, Result.error e)
      → is_refusal e ≡ true
      → ((y : String) → has_port y t ≡ has_port y s)
        × ((x : String) → has_router x t ≡ has_router x s)
        × ((y : String) → router_of y t ≡ router_of y s)
  pub add_interface-made :
      (r p : String) (s t : S)
      → train.add_interface r p s ≡ (t, none)
      → ((y : String) → router_of y t ≡ (if y == p then some r else router_of y s))
        × ((y : String) → has_port y t ≡ has_port y s)
        × ((x : String) → has_router x t ≡ has_router x s)
  pub add_interface-refused :
      (r p : String) (s t : S) (e : Error)
      → train.add_interface r p s ≡ (t, some e)
      → is_refusal e ≡ true
      → ((y : String) → router_of y t ≡ router_of y s)
        × ((y : String) → has_port y t ≡ has_port y s)
        × ((x : String) → has_router x t ≡ has_router x s)
  -- Only the calls for routes give a router any.
  pub create_router-routes :
      (q : RouterResult) (s t : S) (r : RouterResult)
      → train.create_router q s ≡ (t, Result.ok r)
      → has_routes r.uuid t ≡ false
  pub create_port-routes :
      (q : PortRequest) (s t : S) (o : Result String Error) (x : String)
      → train.create_port q s ≡ (t, o)
      → has_routes x t ≡ has_routes x s
  pub add_interface-routes :
      (r p : String) (s t : S) (o : Option Error) (x : String)
      → train.add_interface r p s ≡ (t, o)
      → has_routes x t ≡ has_routes x s
  pub remove_interface-routes :
      (r p : String) (s t : S) (x : String)
      → train.remove_interface r p s ≡ (t, none)
      → has_routes x t ≡ has_routes x s
  pub add_routes-refused :
      (r : String) (rs : List Route) (s t : S) (e : Error) (x : String)
      → train.add_routes r rs s ≡ (t, Result.error e)
      → is_refusal e ≡ true
      → has_routes x t ≡ has_routes x s
  pub remove_routes-routes :
      (r : String) (rs : List Route) (s t : S) (x : String)
      → train.remove_routes r rs s ≡ (t, none)
      → has_routes x s ≡ false
      → has_routes x t ≡ false
  -- Routes are neither routers nor ports.
  pub add_routes-kept :
      (r : String) (rs : List Route) (s t : S) (o : Result (List Route) Error)
      → train.add_routes r rs s ≡ (t, o)
      → ((y : String) → router_of y t ≡ router_of y s)
        × ((y : String) → has_port y t ≡ has_port y s)
        × ((x : String) → has_router x t ≡ has_router x s)
  pub remove_routes-kept :
      (r : String) (rs : List Route) (s t : S)
      → train.remove_routes r rs s ≡ (t, none)
      → ((y : String) → router_of y t ≡ router_of y s)
        × ((y : String) → has_port y t ≡ has_port y s)
        × ((x : String) → has_router x t ≡ has_router x s)
  -- All ports that are connected with a router are listed, and maybe that of its gateway.
  pub list_ports-listed :
      (r p : String) (s : S) (ports : List Port)
      → train.list_ports r s ≡ Result.ok ports
      → router_of p s ≡ some r
      → listed p (port_ids ports) ≡ true
  -- A port goes with its connection. Without an error nothing changes for a port that is not connected
  -- with the router: train only logs that it is not found.
  pub remove_interface-kept :
      (r p : String) (s t : S)
      → train.remove_interface r p s ≡ (t, none)
      → ((y : String)
          → router_of y t ≡ (if y == p && named r (router_of p s) then none else router_of y s))
        × ((y : String)
            → has_port y t ≡ (if y == p && named r (router_of p s) then false else has_port y s))
        × ((x : String) → has_router x t ≡ has_router x s)
  pub delete_router-kept :
      (r : String) (s t : S)
      → train.delete_router r s ≡ (t, none)
      → ((x : String) → has_router x t ≡ (if x == r then false else has_router x s))
        × ((y : String) → has_port y t ≡ has_port y s)

-- The cloud removes what there is, as long as it can be reached; an interface only of a router without
-- extra routes, which may need it, and a router only without interfaces.
pub record Removes {S : Type 0} (train : Train S) (law : Lawful train) : Type 0 where
  pub remove_routes_works :
      (r : String) (rs : List Route) (s : S)
      → law.has_router r s ≡ true
      → (t : S) × (train.remove_routes r rs s ≡ (t, none))
  pub remove_interface_works :
      (r p : String) (s : S)
      → law.router_of p s ≡ some r
      → law.has_routes r s ≡ false
      → (t : S) × (train.remove_interface r p s ≡ (t, none))
  pub delete_router_works :
      (r : String) (s : S)
      → law.has_router r s ≡ true
      → ((p : String) → law.router_of p s ≢ some r)
      → (t : S) × (train.delete_router r s ≡ (t, none))
