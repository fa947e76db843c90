-- ===== src/Router/RouterValid.antt =====
-- Which routers `validateCreateClusterRouterRequest` of
-- cluster-manager/internal/router/validator.go lets through.
use cdm_center.Prelude.{
  ℕ, String, Bool, true, false, not, ◌&&◌, ◌||◌, ◌≤◌, none, ◌==◌, ◌≡◌, ◌↔◌, String-Eq, arith,
}
use cdm_center.Prelude.Lists.{All}
use cdm_center.Errors.{Error}
use cdm_center.Connection.{
  check_each-All, length-none_iff, Formats, first_error, first_error-none_iff, refuse, check_uuid,
}
use cdm_center.Router.{
  Addresses, ExtraRoute, RoutingInterface, Router, check_route, check_interface, router_checks,
  check_router, is_ipv4_or_ipv6,
}

-- a uuid that is given and has the form of one
abbrev pub IsUuid : Formats → String → Type 0
IsUuid f u = ((u == "") ≡ false) × (f.is_uuid u ≡ true)

-- a route to a network by an address
unfoldable pub IsRoute : Formats → Addresses → ExtraRoute → Type 0
IsRoute f a e =
    ((e.destination == "") ≡ false)
    × (f.is_cidr e.destination ≡ true)
    × ((e.nexthop == "") ≡ false)
    × (a.is_ip e.nexthop ≡ true)

-- an interface to a subnet of a network, with an address or without one
unfoldable pub IsInterface : Formats → (String → Bool) → RoutingInterface → Type 0
IsInterface f is_address r =
    IsUuid f r.network_uuid
    × ((r.ip_address == "" || is_address r.ip_address) ≡ true)
    × IsUuid f r.subnet_uuid

unfoldable pub IsRouter : Formats → Addresses → Router → Type 0
unfolding IsRoute IsInterface
IsRouter f a r =
    ((r.state == "" || (r.state == "up" || r.state == "down")) ≡ true)
    × (f.rune_count r.name ≤ 255)
    × (f.rune_count r.description ≤ 255)
    × All (IsRoute f a) r.extra_routes
    × All (IsInterface f a.is_ip) r.external_routing_interfaces
    × All (IsInterface f (is_ipv4_or_ipv6 a)) r.internal_routing_interfaces

check_route-IsRoute :
    (f : Formats) (a : Addresses) (i : ℕ) (e : ExtraRoute)
    → (check_route f a i e ≡ none) ↔ IsRoute f a e
unfolding check_route first_error refuse IsRoute
check_route-IsRoute f a i e = (λ h. ground (arith, h), λ h. ground (arith, h))

check_interface-IsInterface :
    (f : Formats) (is_address : String → Bool) (p : String) (i : ℕ) (r : RoutingInterface)
    → (check_interface f is_address p i r ≡ none) ↔ IsInterface f is_address r
unfolding check_interface first_error refuse check_uuid IsInterface
check_interface-IsInterface f is_address p i r = (λ h. ground (arith, h), λ h. ground (arith, h))

state-none_iff :
    (s : String) (e : Error)
    → (refuse (not (s == "") && (not (s == "up") && not (s == "down"))) e ≡ none)
      ↔ ((s == "" || (s == "up" || s == "down")) ≡ true)
unfolding refuse
state-none_iff s e = (λ h. ground (arith, h), λ h. ground (arith, h))

-- The check of a router that is to be created passes exactly if its state is empty, up or down, its
-- name and its description have at most 255 characters, each extra route leads to a network by an
-- address, and each interface names a network and a subnet by uuids and has no address or a valid one.
pub check_router-IsRouter :
    (f : Formats) (a : Addresses) (r : Router) → (check_router f a r ≡ none) ↔ IsRouter f a r
unfolding check_router router_checks IsRouter
check_router-IsRouter f a r =
    let routes =
      check_each-All (IsRoute f a) (check_route f a) (check_route-IsRoute f a) 0 r.extra_routes in
    let interfaces = λ (is_address : String → Bool) (p : String).
      check_each-All (IsInterface f is_address) (check_interface f is_address p)
        (check_interface-IsInterface f is_address p) 0 in
    let outer =
      interfaces a.is_ip "router.external_routing_interfaces" r.external_routing_interfaces in
    let inner =
      interfaces (is_ipv4_or_ipv6 a) "router.internal_routing_interfaces"
        r.internal_routing_interfaces in
    (
      (λ h.
          let c = (first_error-none_iff (router_checks f a r)).0 h in
          (
            (state-none_iff r.state _).0 c.0,
            (length-none_iff (f.rune_count r.name) _).0 c.1.0,
            (length-none_iff (f.rune_count r.description) _).0 c.1.1.0,
            routes.0 c.1.1.1.0,
            outer.0 c.1.1.1.1.0,
            inner.0 c.1.1.1.1.1.0,
          )),
      (λ (s, n, d, e, o, i). (first_error-none_iff (router_checks f a r)).1 (
        (state-none_iff r.state _).1 s,
        (
          (length-none_iff (f.rune_count r.name) _).1 n,
          (
            (length-none_iff (f.rune_count r.description) _).1 d,
            (routes.1 e, (outer.1 o, (inner.1 i, tt))),
          ),
        ),
      )),
    )
