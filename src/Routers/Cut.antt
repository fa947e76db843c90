-- ===== src/Routers/Cut.antt =====
-- The deferred function of `CreateRouter` (cluster-manager/client/openstack/openstack.go): the
-- removal of the interfaces that are noted, and of the router.
use cdm_center.Prelude.{
  ◌≤◌, String, true, false, none, some, List, [], ◌∷◌, ◌≡◌, ◌≢◌, refl, sym, subst, ◌∙◌, arith,
  if◌then◌else◌, String-Eq, eq_iff, eq_refl, ap,
}
use cdm_center.Prelude.Lists.{length}
use cdm_center.Steps.{and_then}
use cdm_center.Instances.Ports.{listed, Distinct}
use cdm_center.Routers.{RouterResult, Train, remove_interfaces, undo_router}
use cdm_center.Routers.Cloud.{Lawful, Removes}
use cdm_center.Routers.Interfaces.{Grown, Grown-moved, Left}

module _ {S : Type 0} (train : Train S) (law : Lawful train) (removes : Removes train law) where
  -- Behind the removal of connected ports.
  record Cut (r : String) (ports : List String) (t u : S) : Type 0 where
    done : remove_interfaces train r ports t ≡ (u, none)
    links : (q : String) → law.router_of q u ≡ (if listed q ports then none else law.router_of q t)
    has : (q : String) → law.has_port q u ≡ (if listed q ports then false else law.has_port q t)
    routers : (x : String) → law.has_router x u ≡ law.has_router x t

  remove_interfaces-Cut :
      (r : String) (ports : List String) (t : S)
      → Distinct ports
      → ((q : String) → listed q ports ≡ true → law.router_of q t ≡ some r)
      → law.has_routes r t ≡ false
      → (u : S) × Cut r ports t u
  unfolding remove_interfaces and_then
  remove_interfaces-Cut r [] t d l b =
      (t, record { done = refl; links = λ q. refl; has = λ q. refl; routers = λ x. refl })
  remove_interfaces-Cut r (p ∷ ps) t d l b =
      let here : law.router_of p t ≡ some r = l p (rw (eq_refl p)) in
      let (u, e) = removes.remove_interface_works r p t here b in
      let k = law.remove_interface-kept r p t u e in
      let (w, c) =
        remove_interfaces-Cut r ps u d.1 (λ q y. ground (arith, y, d.0, k.0 q, l q, eq_iff q p))
          (law.remove_interface-routes r p t u r e ∙ b) in
      (
        w,
        record {
          done = ap (λ o. and_then o (remove_interfaces train r ps)) e ∙ c.done;
          links = λ q. ground (arith, c.links q, k.0 q, here, eq_refl r);
          has = λ q. ground (arith, c.has q, k.1 q, here, eq_refl r);
          routers = λ x. c.routers x ∙ k.2 x;
        },
      )

  delete_router-Left :
      (r : String) (ports left : List String) (s t u : S)
      → length left ≤ 1
      → Grown train law r ports left s t
      → Cut r ports t u
      → Left train law left s (train.delete_router r u).0
  delete_router-Left r ports left s t u few g c =
      let there : law.has_router r u ≡ true = ground (arith, c.routers r, g.routers r, eq_refl r) in
      let none_linked : (p : String) → law.router_of p u ≢ some r = λ p is.
        let before : law.router_of p s ≡ some r = ground (arith, is, c.links p, g.links p) in
        ground (arith, law.router_of-has_router p r s before, g.fresh) in
      let (w, e) = removes.delete_router_works r u there none_linked in
      let k = law.delete_router-kept r u w e in
      rw e (record {
        few = few;
        routers = λ x. ground (arith, k.0 x, c.routers x, g.routers x, g.fresh, eq_iff x r);
        has = λ q. ground (arith, k.1 q, c.has q, g.has q, g.new q, g.apart q);
      })

  pub undo_router-Left :
      (r : RouterResult) (ports left : List String) (s t : S)
      → length left ≤ 1
      → Grown train law r.uuid ports left s t
      → Left train law left s (undo_router train r ports t)
  unfolding undo_router and_then
  undo_router-Left r ports left s t few g =
      let there : law.has_router r.uuid t ≡ true =
        ground (arith, g.routers r.uuid, eq_refl r.uuid) in
      let (u, e) = removes.remove_routes_works r.uuid r.routes t there in
      let k = law.remove_routes-kept r.uuid r.routes t u e in
      let bare = law.remove_routes-routes r.uuid r.routes t u r.uuid e g.bare in
      let h = Grown-moved train law r.uuid ports left s t u g k.0 k.1 k.2 bare in
      let (w, c) =
        remove_interfaces-Cut r.uuid ports u h.distinct (λ q y. ground (arith, y, h.links q))
          bare in
      let last = delete_router-Left r.uuid ports left s u w few h c in
      subst
        (λ o.
          Left train law left s
            (and_then o (λ x.
              and_then (remove_interfaces train r.uuid ports x) (train.delete_router r.uuid))).0)
        (sym e)
        (subst (λ o. Left train law left s (and_then o (train.delete_router r.uuid)).0) (sym c.done)
          last)
