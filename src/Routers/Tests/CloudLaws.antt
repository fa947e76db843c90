-- ===== src/Routers/Tests/CloudLaws.antt =====
-- The laws of the cloud with one router and one port.
use cdm_center.Prelude.{
  String, Bool, true, false, none, some, List, ◌≡◌, ◌≢◌, refl, arith, if◌then◌else◌, ◌==◌,
  String-Eq, eq_iff, ◌&&◌, [], ◌∷◌, Bool-cases, inl, inr,
}
use cdm_center.Errors.{Error, is_refusal}
use cdm_center.Steps.{named}
use cdm_center.Cluster.Store.{Result}
use cdm_center.Instances.{PortRequest}
use cdm_center.Instances.Ports.{listed}
use cdm_center.Routers.{Route, RouterResult, Port}
use cdm_center.Routers.Deletion.{port_ids}
use cdm_center.Routers.Cloud.{Lawful, Removes}
use cdm_center.Routers.Tests.SmallCloud.{
  World, nothing, lone_port, routed, routed_port, linked, routers, links, link, unlink, drop_router,
  cloud, has_the_router, has_the_port, router_of_port, router_there, router_facts, router_error,
  port_facts, port_error, link_facts, link_error, unlink_facts, drop_facts, linked_port,
}

module _ (b : Bool) where
  pub router_made :
      (q : RouterResult) (s t : World) (r : RouterResult)
      → (cloud b).create_router q s ≡ (t, Result.ok r)
      → (has_the_router r.uuid s ≡ false)
        × ((x : String) → has_the_router x t ≡ (if x == r.uuid then true else has_the_router x s))
        × ((p : String) → has_the_port p t ≡ has_the_port p s)
        × ((p : String) → router_of_port p t ≡ router_of_port p s)
  router_made q s t r e =
      let f = router_facts q r s t e in
      (
        ground (arith, f),
        (λ x. ground (arith, f, eq_iff x r.uuid, eq_iff x "r")),
        (λ p. ground (arith, f)),
        (λ p. ground (arith, f)),
      )

  pub router_refused :
      (q : RouterResult) (s t : World) (e : Error)
      → (cloud b).create_router q s ≡ (t, Result.error e)
      → is_refusal e ≡ true
      → ((x : String) → has_the_router x t ≡ has_the_router x s)
        × ((p : String) → has_the_port p t ≡ has_the_port p s)
  router_refused q s t e h y = rw (router_error q s t e h) ((λ x. refl), (λ p. refl))

  pub port_made :
      (q : PortRequest) (s t : World) (p : String)
      → (cloud b).create_port q s ≡ (t, Result.ok p)
      → (has_the_port p s ≡ false)
        × ((y : String) → has_the_port y t ≡ (if y == p then true else has_the_port y s))
        × ((x : String) → has_the_router x t ≡ has_the_router x s)
        × ((y : String) → router_of_port y t ≡ router_of_port y s)
  port_made q s t p e =
      let f = port_facts s t p e in
      (
        ground (arith, f),
        (λ y. ground (arith, f, eq_iff y p, eq_iff y "p")),
        (λ x. ground (arith, f)),
        (λ y. ground (arith, f)),
      )

  -- no change of ports, routers and connections
  abbrev Same : World → World → Type 0
  Same s t =
      ((y : String) → router_of_port y t ≡ router_of_port y s)
      × ((y : String) → has_the_port y t ≡ has_the_port y s)
      × ((x : String) → has_the_router x t ≡ has_the_router x s)

  same : (s t : World) → t ≡ s → Same s t
  same s t e = rw e ((λ y. refl), (λ y. refl), (λ x. refl))

  pub port_refused :
      (q : PortRequest) (s t : World) (e : Error)
      → (cloud b).create_port q s ≡ (t, Result.error e)
      → is_refusal e ≡ true
      → ((y : String) → has_the_port y t ≡ has_the_port y s)
        × ((x : String) → has_the_router x t ≡ has_the_router x s)
        × ((y : String) → router_of_port y t ≡ router_of_port y s)
  port_refused q s t e h y = let k = same s t (port_error s t e h) in (k.1, k.2, k.0)

  pub interface_made :
      (r p : String) (s t : World)
      → (cloud b).add_interface r p s ≡ (t, none)
      → ((y : String) → router_of_port y t ≡ (if y == p then some r else router_of_port y s))
        × ((y : String) → has_the_port y t ≡ has_the_port y s)
        × ((x : String) → has_the_router x t ≡ has_the_router x s)
  interface_made r p s t e =
      let is : (r ≡ "r") × (p ≡ "p") × (link b s ≡ (t, none)) =
        ground (arith, e, eq_iff r "r", eq_iff p "p") in
      let f = link_facts b s t is.2 in
      (
        (λ y. ground (arith, is, f, eq_iff y p, eq_iff y "p")),
        (λ y. ground (arith, f)),
        (λ x. ground (arith, f)),
      )

  pub interface_refused :
      (r p : String) (s t : World) (e : Error)
      → (cloud b).add_interface r p s ≡ (t, some e)
      → is_refusal e ≡ true
      → Same s t
  interface_refused r p s t e h y =
      let there : t ≡ s = ground (arith, h, link_error b s t e) in same s t there

  pub routes_kept :
      (r : String) (rs : List Route) (s t : World) (o : Result (List Route) Error)
      → (cloud b).add_routes r rs s ≡ (t, o)
      → Same s t
  routes_kept r rs s t o e = same s t (ground (arith, e))

  pub routes_removed :
      (r : String) (rs : List Route) (s t : World)
      → (cloud b).remove_routes r rs s ≡ (t, none)
      → Same s t
  routes_removed r rs s t e = same s t (ground (arith, e))

  pub interface_removed :
      (r p : String) (s t : World)
      → (cloud b).remove_interface r p s ≡ (t, none)
      → ((y : String)
          → router_of_port y t
            ≡ (if y == p && named r (router_of_port p s) then none else router_of_port y s))
        × ((y : String)
            → has_the_port y t
              ≡ (if y == p && named r (router_of_port p s) then false else has_the_port y s))
        × ((x : String) → has_the_router x t ≡ has_the_router x s)
  interface_removed r p s t e = elim (Bool-cases (r == "r" && p == "p")) [
    | inl i ↦
        let run : unlink s ≡ (t, none) = ground (arith, e, i) in
        let is : (r ≡ "r") × (p ≡ "p") = ground (arith, i, eq_iff r "r", eq_iff p "p") in
        let f = unlink_facts s t run in
        (
          (λ y. ground (arith, is, f, eq_iff y p, eq_iff y "p")),
          (λ y. ground (arith, is, f, eq_iff y p, eq_iff y "p")),
          (λ x. ground (arith, f)),
        )
    | inr o ↦
        let stays : t ≡ s = ground (arith, e, o) in
        let apart : named r (router_of_port p s) ≡ false = ground (arith, o) in
        (
          (λ y. ground (arith, stays, apart)),
          (λ y. ground (arith, stays, apart)),
          (λ x. ground (arith, stays)),
        )
  ]

  pub ports_listed :
      (r p : String) (s : World) (ps : List Port)
      → (cloud b).list_ports r s ≡ Result.ok ps
      → router_of_port p s ≡ some r
      → listed p (port_ids ps) ≡ true
  unfolding port_ids
  ports_listed r p linked ps e h =
      let is : linked_port ∷ [] ≡ ps = ground (arith, e) in
      rw (← is) (ground (arith, h, eq_iff p "p"))
  ports_listed r p nothing ps e h = absurd (ground (arith, h))
  ports_listed r p lone_port ps e h = absurd (ground (arith, h))
  ports_listed r p routed ps e h = absurd (ground (arith, h))
  ports_listed r p routed_port ps e h = absurd (ground (arith, h))

  pub router_deleted :
      (r : String) (s t : World)
      → (cloud b).delete_router r s ≡ (t, none)
      → ((x : String) → has_the_router x t ≡ (if x == r then false else has_the_router x s))
        × ((y : String) → has_the_port y t ≡ has_the_port y s)
  router_deleted r s t e =
      let is : (r ≡ "r") × (drop_router s ≡ (t, none)) = ground (arith, e, eq_iff r "r") in
      let f = drop_facts s t is.1 in
      ((λ x. ground (arith, is, f, eq_iff x r, eq_iff x "r")), (λ y. ground (arith, f)))

  abbrev pub laws : Lawful (cloud b)
  laws = record {
    has_router = has_the_router;
    has_port = has_the_port;
    router_of = router_of_port;
    has_routes = λ r s. false;
    router_of-has_router = router_there;
    create_router-made = router_made;
    create_router-refused = router_refused;
    create_port-made = port_made;
    create_port-refused = port_refused;
    add_interface-made = interface_made;
    add_interface-refused = interface_refused;
    add_routes-kept = routes_kept;
    remove_routes-kept = routes_removed;
    create_router-routes = λ q s t r e. refl;
    create_port-routes = λ q s t o x e. refl;
    add_interface-routes = λ r p s t o x e. refl;
    remove_interface-routes = λ r p s t x e. refl;
    add_routes-refused = λ r rs s t e x h y. refl;
    remove_routes-routes = λ r rs s t x e h. refl;
    list_ports-listed = ports_listed;
    remove_interface-kept = interface_removed;
    delete_router-kept = router_deleted;
  }

  unlink_works : (s : World) → links s ≡ true → (t : World) × (unlink s ≡ (t, none))
  unlink_works linked h = (routed, refl)
  unlink_works nothing h = absurd (ground (arith, h))
  unlink_works lone_port h = absurd (ground (arith, h))
  unlink_works routed h = absurd (ground (arith, h))
  unlink_works routed_port h = absurd (ground (arith, h))

  drop_works :
      (s : World) → routers s ≡ true → links s ≢ true → (t : World) × (drop_router s ≡ (t, none))
  drop_works routed h n = (nothing, refl)
  drop_works routed_port h n = (lone_port, refl)
  drop_works linked h n = absurd (n refl)
  drop_works nothing h n = absurd (ground (arith, h))
  drop_works lone_port h n = absurd (ground (arith, h))

  pub interface_removable :
      (r p : String) (s : World)
      → router_of_port p s ≡ some r
      → false ≡ false
      → (t : World) × ((cloud b).remove_interface r p s ≡ (t, none))
  interface_removable r p s h bare =
      let is : (r ≡ "r") × (p ≡ "p") × (links s ≡ true) = ground (arith, h, eq_iff p "p") in
      let (t, e) = unlink_works s is.2 in (t, rw (is.0, is.1) e)

  pub router_deletable :
      (r : String) (s : World)
      → has_the_router r s ≡ true
      → ((p : String) → router_of_port p s ≢ some r)
      → (t : World) × ((cloud b).delete_router r s ≡ (t, none))
  router_deletable r s h n =
      let is : (r ≡ "r") × (routers s ≡ true) = ground (arith, h, eq_iff r "r") in
      let (t, e) = drop_works s is.1 (λ l. n "p" (rw (l, is.0))) in (t, rw is.0 e)

  abbrev pub removes : Removes (cloud b) laws
  removes = record {
    remove_routes_works = λ r rs s h. (s, refl);
    remove_interface_works = interface_removable;
    delete_router_works = router_deletable;
  }
