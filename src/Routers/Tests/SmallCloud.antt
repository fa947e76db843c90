-- ===== src/Routers/Tests/SmallCloud.antt =====
-- A cloud with one router and one port at most, for runs of `CreateRouter` and `DeleteRouter`.
use cdm_center.Prelude.{
  String, Bool, true, false, ◌&&◌, Option, none, some, List, [], ◌∷◌, ◌≡◌, refl, arith,
  if◌then◌else◌, ◌==◌, String-Eq, eq_iff,
}
use cdm_center.Errors.{Error}
use cdm_center.Cluster.Store.{Result}
use cdm_center.Routers.{Port, RouterResult, Train}

pub data World : Type 0 where
  nothing lone_port routed routed_port linked : World

abbrev pub routers : World → Bool
routers nothing = false
routers lone_port = false
routers _ = true

abbrev pub ports : World → Bool
ports nothing = false
ports routed = false
ports _ = true

abbrev pub links : World → Bool
links linked = true
links _ = false

abbrev pub made_router : RouterResult → RouterResult
made_router q = record q { uuid = "r"; status = "ACTIVE" }

abbrev pub make_router : RouterResult → World → World × Result RouterResult Error
make_router q nothing = (routed, Result.ok (made_router q))
make_router q lone_port = (routed_port, Result.ok (made_router q))
make_router q s = (s, Result.error Error.unknown)

abbrev pub make_port : World → World × Result String Error
make_port nothing = (lone_port, Result.ok "p")
make_port routed = (routed_port, Result.ok "p")
make_port s = (s, Result.error Error.unknown)

-- The flag: whether ports can be connected.
abbrev pub link : Bool → World → World × Option Error
link true routed_port = (linked, none)
link _ s = (s, some (Error.other "conflict"))

abbrev pub unlink : World → World × Option Error
unlink linked = (routed, none)
unlink s = (s, none)

abbrev pub drop_router : World → World × Option Error
drop_router routed = (nothing, none)
drop_router routed_port = (lone_port, none)
drop_router s = (s, some Error.unknown)

abbrev pub shown_router : RouterResult
shown_router = record {
  uuid = "r";
  name = "router";
  description = none;
  project_id = "";
  state = true;
  status = "ACTIVE";
  routes = [];
  external_network = "";
  external_fixed_ips = [];
  raw = "";
}

abbrev pub linked_port : Port
linked_port = record {
  uuid = "p";
  network_uuid = "n";
  fixed_ips = record { ip_address = "10.0.0.1"; subnet_uuid = "sub" } ∷ [];
  project_id = "t";
}

abbrev pub listed_ports : World → List Port
listed_ports linked = linked_port ∷ []
listed_ports _ = []

abbrev pub cloud : Bool → Train World
cloud connects = record {
  create_router = make_router;
  create_port = λ q s. make_port s;
  add_interface =
      λ r p s. if r == "r" && p == "p" then link connects s else (s, some Error.client_not_found);
  list_ports = λ r s. Result.ok (listed_ports s);
  add_routes = λ r rs s. (s, Result.ok rs);
  remove_routes = λ r rs s. (s, none);
  remove_interface = λ r p s. if r == "r" && p == "p" then unlink s else (s, none);
  show_router = λ r s. Result.ok shown_router;
  delete_router = λ r s. if r == "r" then drop_router s else (s, some Error.unknown);
}

abbrev pub has_the_router : String → World → Bool
has_the_router r s = r == "r" && routers s

abbrev pub has_the_port : String → World → Bool
has_the_port p s = p == "p" && ports s

abbrev pub router_of_port : String → World → Option String
router_of_port p s = if p == "p" && links s then some "r" else none

linked_routers : (s : World) → links s ≡ true → routers s ≡ true
linked_routers linked h = refl
linked_routers nothing h = absurd (ground (arith, h))
linked_routers lone_port h = absurd (ground (arith, h))
linked_routers routed h = absurd (ground (arith, h))
linked_routers routed_port h = absurd (ground (arith, h))

pub router_there :
    (p r : String) (s : World) → router_of_port p s ≡ some r → has_the_router r s ≡ true
router_there p r s h = ground (arith, h, linked_routers s, eq_iff r "r")

-- What the makers change.
pub router_facts :
    (q r : RouterResult) (s t : World)
    → make_router q s ≡ (t, Result.ok r)
    → (r.uuid ≡ "r")
      × (routers s ≡ false)
      × (routers t ≡ true)
      × (ports t ≡ ports s)
      × (links t ≡ links s)
router_facts q r nothing t h = ground (arith, h)
router_facts q r lone_port t h = ground (arith, h)
router_facts q r routed t h = absurd (ground (arith, h))
router_facts q r routed_port t h = absurd (ground (arith, h))
router_facts q r linked t h = absurd (ground (arith, h))

pub router_error :
    (q : RouterResult) (s t : World) (e : Error) → make_router q s ≡ (t, Result.error e) → t ≡ s
router_error q nothing t e h = absurd (ground (arith, h))
router_error q lone_port t e h = absurd (ground (arith, h))
router_error q routed t e h = ground (arith, h)
router_error q routed_port t e h = ground (arith, h)
router_error q linked t e h = ground (arith, h)

pub port_facts :
    (s t : World) (p : String)
    → make_port s ≡ (t, Result.ok p)
    → (p ≡ "p")
      × (ports s ≡ false)
      × (ports t ≡ true)
      × (routers t ≡ routers s)
      × (links t ≡ links s)
port_facts nothing t p h = ground (arith, h)
port_facts routed t p h = ground (arith, h)
port_facts lone_port t p h = absurd (ground (arith, h))
port_facts routed_port t p h = absurd (ground (arith, h))
port_facts linked t p h = absurd (ground (arith, h))

pub port_error : (s t : World) (e : Error) → make_port s ≡ (t, Result.error e) → t ≡ s
port_error nothing t e h = absurd (ground (arith, h))
port_error routed t e h = absurd (ground (arith, h))
port_error lone_port t e h = ground (arith, h)
port_error routed_port t e h = ground (arith, h)
port_error linked t e h = ground (arith, h)

pub link_facts :
    (b : Bool) (s t : World)
    → link b s ≡ (t, none)
    → (links t ≡ true) × (ports t ≡ ports s) × (routers t ≡ routers s)
link_facts true routed_port t h = ground (arith, h)
link_facts false routed_port t h = absurd (ground (arith, h))
link_facts true nothing t h = absurd (ground (arith, h))
link_facts true lone_port t h = absurd (ground (arith, h))
link_facts true routed t h = absurd (ground (arith, h))
link_facts true linked t h = absurd (ground (arith, h))
link_facts false nothing t h = absurd (ground (arith, h))
link_facts false lone_port t h = absurd (ground (arith, h))
link_facts false routed t h = absurd (ground (arith, h))
link_facts false linked t h = absurd (ground (arith, h))

pub link_error : (b : Bool) (s t : World) (e : Error) → link b s ≡ (t, some e) → t ≡ s
link_error true routed_port t e h = absurd (ground (arith, h))
link_error false routed_port t e h = ground (arith, h)
link_error true nothing t e h = ground (arith, h)
link_error true lone_port t e h = ground (arith, h)
link_error true routed t e h = ground (arith, h)
link_error true linked t e h = ground (arith, h)
link_error false nothing t e h = ground (arith, h)
link_error false lone_port t e h = ground (arith, h)
link_error false routed t e h = ground (arith, h)
link_error false linked t e h = ground (arith, h)

pub unlink_facts :
    (s t : World)
    → unlink s ≡ (t, none)
    → (links t ≡ false) × (ports t ≡ (if links s then false else ports s)) × (routers t ≡ routers s)
unlink_facts linked t h = ground (arith, h)
unlink_facts nothing t h = ground (arith, h)
unlink_facts lone_port t h = ground (arith, h)
unlink_facts routed t h = ground (arith, h)
unlink_facts routed_port t h = ground (arith, h)

pub drop_facts :
    (s t : World) → drop_router s ≡ (t, none) → (routers t ≡ false) × (ports t ≡ ports s)
drop_facts routed t h = ground (arith, h)
drop_facts routed_port t h = ground (arith, h)
drop_facts nothing t h = absurd (ground (arith, h))
drop_facts lone_port t h = absurd (ground (arith, h))
drop_facts linked t h = absurd (ground (arith, h))
