-- ===== src/Routers/Removed.antt =====
-- What `DeleteRouter` of cluster-manager/client/openstack/openstack.go takes away.
use cdm_center.Prelude.{
  String, true, false, ◌&&◌, none, List, [], ◌∷◌, ◌≡◌, refl, sym, ◌∙◌, arith, ◌==◌, if◌then◌else◌,
  String-Eq, eq_iff, Bool-cases, inl, inr, some, Option,
}
use cdm_center.Errors.{Error}
use cdm_center.Steps.{and_then_inv, named}
use cdm_center.Cluster.Store.{Result}
use cdm_center.Instances.Ports.{listed}
use cdm_center.Routers.{Port, Route, RouterResult, Train, remove_interfaces}
use cdm_center.Routers.Deletion.{
  port_ids, remove_shown_routes, delete_shown, delete_listed, delete_router,
}
use cdm_center.Routers.Cloud.{Lawful}

module _ {S : Type 0} (train : Train S) (law : Lawful train) where
  -- The same routers, and the same ports but for those listed that are connected with the router.
  abbrev Less : String → List String → S → S → Type 0
  Less r ports s t =
      ((x : String) → law.has_router x t ≡ law.has_router x s)
      × ((q : String)
          → law.has_port q t
            ≡ (if listed q ports && named r (law.router_of q s) then false else law.has_port q s))
      × ((q : String)
          → law.router_of q t
            ≡ (if listed q ports && named r (law.router_of q s) then none else law.router_of q s))

  Less-same : (r : String) (s t : S) → s ≡ t → Less r [] s t
  Less-same r s t e = rw (sym e) ((λ x. refl), (λ q. refl), (λ q. refl))

  remove_interfaces-Less :
      (r : String) (ports : List String) (s t : S)
      → remove_interfaces train r ports s ≡ (t, none)
      → Less r ports s t
  unfolding remove_interfaces
  remove_interfaces-Less r [] s t e = Less-same r s t (ground (arith, e))
  remove_interfaces-Less r (p ∷ ps) s t e =
      let (u, here, after) = and_then_inv (train.remove_interface r p s) _ e in
      let k = law.remove_interface-kept r p s u here in
      let rest = remove_interfaces-Less r ps u t after in
      (
        (λ x. rest.0 x ∙ k.2 x),
        (λ q. ground (arith, rest.1 q, k.1 q, k.0 q, eq_iff q p)),
        (λ q. ground (arith, rest.2 q, k.0 q, eq_iff q p)),
      )

  remove_shown_routes-Less :
      (uuid : String) (r : RouterResult) (rs : List Route) (s t : S)
      → r.routes ≡ rs
      → remove_shown_routes train r s ≡ (t, none)
      → Less uuid [] s t
  unfolding remove_shown_routes
  remove_shown_routes-Less uuid r [] s t is e = Less-same uuid s t (ground (arith, e, is))
  remove_shown_routes-Less uuid r (x ∷ xs) s t is e =
      let run : train.remove_routes r.uuid (x ∷ xs) s ≡ (t, none) = ground (arith, e, is) in
      let k = law.remove_routes-kept r.uuid (x ∷ xs) s t run in (k.2, k.1, k.0)

  -- The router and the ports that were connected with it are gone, and nothing else.
  abbrev pub Gone : String → S → S → Type 0
  Gone uuid s t =
      ((x : String) → law.has_router x t ≡ (if x == uuid then false else law.has_router x s))
      × ((q : String)
          → law.has_port q t ≡ (if named uuid (law.router_of q s) then false else law.has_port q s))

  named_router : (uuid : String) (o : Option String) → named uuid o ≡ true → o ≡ some uuid
  named_router uuid none h = absurd (ground (arith, h))
  named_router uuid (some x) h = ground (arith, h, eq_iff uuid x)

  delete_shown-Gone :
      (uuid : String) (ports : List Port) (s t : S) (o : Result RouterResult Error)
      → train.list_ports uuid s ≡ Result.ok ports
      → delete_shown train uuid ports s o ≡ (t, none)
      → Gone uuid s t
  unfolding delete_shown
  delete_shown-Gone uuid ports s t (Result.error x) list e = absurd (ground (arith, e))
  delete_shown-Gone uuid ports s t (Result.ok r) list e =
      let (u, first, after) = and_then_inv (remove_shown_routes train r s) _ e in
      let (w, second, last) =
        and_then_inv (remove_interfaces train uuid (port_ids ports) u) _ after in
      let a = remove_shown_routes-Less uuid r r.routes s u refl first in
      let b = remove_interfaces-Less uuid (port_ids ports) u w second in
      let c = law.delete_router-kept uuid w t last in
      (
        (λ x. ground (arith, c.0 x, b.0 x, a.0 x)),
        (λ q. elim (Bool-cases (named uuid (law.router_of q s))) [
          | inl y ↦
              let there =
                law.list_ports-listed uuid q s ports list
                  (named_router uuid (law.router_of q s) y) in
              ground (arith, y, there, c.1 q, b.1 q, a.2 q)
          | inr n ↦ ground (arith, n, c.1 q, b.1 q, a.1 q, a.2 q)
        ]),
      )

  delete_listed-Gone :
      (uuid : String) (s t : S) (o : Result (List Port) Error)
      → train.list_ports uuid s ≡ o
      → delete_listed train uuid s o ≡ (t, none)
      → Gone uuid s t
  unfolding delete_listed
  delete_listed-Gone uuid s t (Result.error x) list e = absurd (ground (arith, e))
  delete_listed-Gone uuid s t (Result.ok ports) list e =
      delete_shown-Gone uuid ports s t (train.show_router uuid s) list e

  -- Over a cloud that keeps its laws: if DeleteRouter returns without an error, the router and exactly
  -- the ports that were connected with it are gone, and all other routers and ports are there if they
  -- were before.
  pub delete_router-Gone :
      (uuid : String) (s t : S) → delete_router train uuid s ≡ (t, none) → Gone uuid s t
  unfolding delete_router
  delete_router-Gone uuid s t e = delete_listed-Gone uuid s t (train.list_ports uuid s) refl e
