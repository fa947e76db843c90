-- ===== src/Routers/Leak.antt =====
-- The port that a `CreateRouter` of cluster-manager/client/openstack/openstack.go leaves over.
use cdm_center.Prelude.{
  String, true, false, some, List, [], ◌∷◌, ◌≡◌, sym, ◌∙◌, arith, String-Eq, eq_refl, ap,
}
use cdm_center.Errors.{Error, is_refusal}
use cdm_center.Cluster.Store.{Result}
use cdm_center.Instances.{FixedIp}
use cdm_center.Routers.{
  RouterResult, RoutingInterface, CreateRouterRequest, Train, returned, undo_router, fail,
  with_interfaces, with_router, with_gateway, create_router, add_interfaces, add_port, added,
  router_request, gateway_ips, first_network, interface_port,
}
use cdm_center.Routers.Cloud.{Lawful, Removes}
use cdm_center.Routers.Interfaces.{Grown-left, Grown-moved, created-Grown}
use cdm_center.Routers.Cut.{undo_router-Left}

module _ {S : Type 0} (train : Train S) (law : Lawful train) (removes : Removes train law) where
  create_router-refused :
      (req : CreateRouterRequest) (i : RoutingInterface) (is : List RoutingInterface)
      (ips : List FixedIp) (r : RouterResult) (p : String) (e : Error) (s t u w : S)
      → req.internals ≡ i ∷ is
      → gateway_ips (first_network req.externals) req.externals ≡ some ips
      → train.create_router (router_request req ips) s ≡ (t, Result.ok r)
      → train.create_port (interface_port i) t ≡ (u, Result.ok p)
      → train.add_interface r.uuid p u ≡ (w, some e)
      → create_router train req s ≡ (undo_router train r [] w, returned (Result.error e))
  unfolding create_router with_gateway with_router with_interfaces fail add_interfaces add_port
      added
  create_router-refused req i is ips r p e s t u w internals gateway made port refused =
      ground (arith, internals, gateway, made, port, refused)

  -- A port that was made and that the cloud refuses to connect stays: where this happens to the port
  -- of the first internal interface, a port is there behind CreateRouter that was not there before,
  -- although the cloud keeps its laws and removes what it is asked to.
  pub create_router-leaves_port :
      (req : CreateRouterRequest) (i : RoutingInterface) (is : List RoutingInterface)
      (ips : List FixedIp) (r : RouterResult) (p : String) (e : Error) (s t u w : S)
      → req.internals ≡ i ∷ is
      → gateway_ips (first_network req.externals) req.externals ≡ some ips
      → train.create_router (router_request req ips) s ≡ (t, Result.ok r)
      → train.create_port (interface_port i) t ≡ (u, Result.ok p)
      → train.add_interface r.uuid p u ≡ (w, some e)
      → is_refusal e ≡ true
      → (law.has_port p s ≡ false) × (law.has_port p (create_router train req s).0 ≡ true)
  create_router-leaves_port req i is ips r p e s t u w internals gateway made port refused y =
      let first = created-Grown train law (router_request req ips) s t r made in
      let k = law.create_port-made (interface_port i) t u p port in
      let x = law.add_interface-refused r.uuid p u w e refused y in
      let new : law.has_port p s ≡ false = sym (first.has p) ∙ k.0 in
      let more =
        Grown-left train law r.uuid p [] s t u first k.0 k.1 k.3 k.2
          (law.create_port-routes (interface_port i) t u (Result.ok p) r.uuid port) in
      let bare = law.add_interface-routes r.uuid p u w (some e) r.uuid refused ∙ more.bare in
      let grown = Grown-moved train law r.uuid [] (p ∷ []) s u w more x.0 x.1 x.2 bare in
      let left = undo_router-Left train law removes r [] (p ∷ []) s w (omega arith) grown in
      let run =
        create_router-refused req i is ips r p e s t u w internals gateway made port refused in
      (new, ap (λ o. law.has_port p o.0) run ∙ left.has p ∙ rw (eq_refl p))
