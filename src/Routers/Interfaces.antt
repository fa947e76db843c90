-- ===== src/Routers/Interfaces.antt =====
-- The interfaces that `CreateRouter` of cluster-manager/client/openstack/openstack.go adds to a
-- router, and what the deferred function leaves of them.
use cdm_center.Prelude.{
  ℕ, ◌+◌, ◌≤◌, String, true, false, ◌||◌, Option, none, some, List, [], ◌∷◌, ◌++◌, ◌≡◌, refl, ◌∙◌,
  arith, ◌==◌, if◌then◌else◌, String-Eq, eq_iff,
}
use cdm_center.Prelude.Lists.{length}
use cdm_center.Errors.{Error, is_refusal}
use cdm_center.Cluster.Store.{Result}
use cdm_center.Instances.Ports.{listed, Distinct, listed-append, Distinct-append, length-append_one}
use cdm_center.Routers.{
  RouterResult, RoutingInterface, Train, Connected, added, add_port, interface_port, add_interfaces,
}
use cdm_center.Routers.Cloud.{Lawful}

module _ {S : Type 0} (train : Train S) (law : Lawful train) where
  -- Against s, t has the router r, the listed ports that are connected with it, and the ports that are
  -- left over.
  pub record Grown (r : String) (ports left : List String) (s t : S) : Type 0 where
    pub fresh : law.has_router r s ≡ false
    pub routers : (x : String) → law.has_router x t ≡ (if x == r then true else law.has_router x s)
    pub distinct : Distinct ports
    pub new : (q : String) → listed q ports ≡ true → law.has_port q s ≡ false
    pub apart : (q : String) → listed q ports ≡ true → listed q left ≡ false
    pub has :
        (q : String) → law.has_port q t ≡ (listed q ports || (listed q left || law.has_port q s))
    pub links :
        (q : String) → law.router_of q t ≡ (if listed q ports then some r else law.router_of q s)
    pub bare : law.has_routes r t ≡ false

  -- Nothing but routers, ports and connections counts.
  pub Grown-moved :
      (r : String) (ports left : List String) (s t u : S)
      → Grown r ports left s t
      → ((y : String) → law.router_of y u ≡ law.router_of y t)
      → ((y : String) → law.has_port y u ≡ law.has_port y t)
      → ((x : String) → law.has_router x u ≡ law.has_router x t)
      → law.has_routes r u ≡ false
      → Grown r ports left s u
  Grown-moved r ports left s t u g l p x b = record {
    fresh = g.fresh;
    routers = λ y. x y ∙ g.routers y;
    distinct = g.distinct;
    new = g.new;
    apart = g.apart;
    has = λ q. p q ∙ g.has q;
    links = λ q. l q ∙ g.links q;
    bare = b;
  }

  -- One port that is left over at most.
  pub record Left (ports : List String) (s t : S) : Type 0 where
    pub few : length ports ≤ 1
    pub routers : (x : String) → law.has_router x t ≡ law.has_router x s
    pub has : (q : String) → law.has_port q t ≡ (listed q ports || law.has_port q s)

  -- What a run of the rest leaves: n ports that are connected; a port is left over only behind an
  -- error. Nothing is known behind an error that is no refusal.
  abbrev pub Leaves : ℕ → String → S → Connected train → Type 0
  Leaves n r s (t, ports, none) = Grown r ports [] s t × (length ports ≡ n)
  Leaves n r s (t, ports, some e) =
      is_refusal e ≡ true → (left : List String) × (length left ≤ 1) × Grown r ports left s t

  pub Grown-left :
      (r p : String) (ports : List String) (s t u : S)
      → Grown r ports [] s t
      → law.has_port p t ≡ false
      → ((y : String) → law.has_port y u ≡ (if y == p then true else law.has_port y t))
      → ((y : String) → law.router_of y u ≡ law.router_of y t)
      → ((x : String) → law.has_router x u ≡ law.has_router x t)
      → law.has_routes r u ≡ law.has_routes r t
      → Grown r ports (p ∷ []) s u
  Grown-left r p ports s t u g n h l x b = record {
    fresh = g.fresh;
    routers = λ y. x y ∙ g.routers y;
    distinct = g.distinct;
    new = g.new;
    apart = λ q e. ground (arith, e, eq_iff q p, n, g.has p);
    has = λ q. ground (arith, h q, g.has q);
    links = λ q. l q ∙ g.links q;
    bare = b ∙ g.bare;
  }

  Grown-next :
      (r p : String) (ports : List String) (s t u w : S)
      → Grown r ports [] s t
      → law.has_port p t ≡ false
      → ((y : String) → law.has_port y u ≡ (if y == p then true else law.has_port y t))
      → ((y : String) → law.router_of y u ≡ law.router_of y t)
      → ((x : String) → law.has_router x u ≡ law.has_router x t)
      → law.has_routes r u ≡ law.has_routes r t
      → train.add_interface r p u ≡ (w, none)
      → Grown r (ports ++ (p ∷ [])) [] s w
  Grown-next r p ports s t u w g n h l x b e =
      let k = law.add_interface-made r p u w e in
      record {
        fresh = g.fresh;
        routers = λ y. k.2 y ∙ x y ∙ g.routers y;
        distinct = Distinct-append p ports g.distinct (ground (arith, n, g.has p));
        new = λ q y. ground (arith, y, listed-append q p ports, g.new q, eq_iff q p, n, g.has p);
        apart = λ q y. refl;
        has = λ q. ground (arith, k.1 q, h q, g.has q, listed-append q p ports);
        links = λ q. ground (arith, k.0 q, l q, g.links q, listed-append q p ports);
        bare = law.add_interface-routes r p u w none r e ∙ b ∙ g.bare;
      }

  added-Leaves :
      (m : ℕ) (r p : String) (ports : List String) (s t u : S) (o : S × Option Error)
      (next : List String → S → Connected train)
      → Grown r ports [] s t
      → law.has_port p t ≡ false
      → ((y : String) → law.has_port y u ≡ (if y == p then true else law.has_port y t))
      → ((y : String) → law.router_of y u ≡ law.router_of y t)
      → ((x : String) → law.has_router x u ≡ law.has_router x t)
      → law.has_routes r u ≡ law.has_routes r t
      → train.add_interface r p u ≡ o
      → ((w : S) → Grown r (ports ++ (p ∷ [])) [] s w → Leaves m r s (next (ports ++ (p ∷ [])) w))
      → Leaves m r s (added train ports p o next)
  unfolding added
  added-Leaves m r p ports s t u (w, some e) next g n h l x b is rest = λ y.
      let k = law.add_interface-refused r p u w e is y in
      let moved = Grown-left r p ports s t u g n h l x b in
      let still = law.add_interface-routes r p u w (some e) r is ∙ moved.bare in
      (p ∷ [], omega arith, Grown-moved r ports (p ∷ []) s u w moved k.0 k.1 k.2 still)
  added-Leaves m r p ports s t u (w, none) next g n h l x b is rest =
      rest w (Grown-next r p ports s t u w g n h l x b is)

  add_port-Leaves :
      (m : ℕ) (r : String) (i : RoutingInterface) (ports : List String) (s t : S)
      (o : S × Result String Error) (next : List String → S → Connected train)
      → Grown r ports [] s t
      → train.create_port (interface_port i) t ≡ o
      → ((p : String) (w : S)
          → Grown r (ports ++ (p ∷ [])) [] s w
          → Leaves m r s (next (ports ++ (p ∷ [])) w))
      → Leaves m r s (add_port train r ports o next)
  unfolding add_port
  add_port-Leaves m r i ports s t (u, Result.error e) next g is rest = λ y.
      let k = law.create_port-refused _ t u e is y in
      let still = law.create_port-routes _ t u (Result.error e) r is ∙ g.bare in
      ([], omega arith, Grown-moved r ports [] s t u g k.2 k.0 k.1 still)
  add_port-Leaves m r i ports s t (u, Result.ok p) next g is rest =
      let k = law.create_port-made _ t u p is in
      added-Leaves m r p ports s t u _ next g k.0 k.1 k.3 k.2
        (law.create_port-routes _ t u (Result.ok p) r is) refl (rest p)

  pub add_interfaces-Leaves :
      (m : ℕ) (r : String) (is : List RoutingInterface) (ports : List String) (s t : S)
      → Grown r ports [] s t
      → length ports + length is ≡ m
      → Leaves m r s (add_interfaces train r is ports t)
  unfolding add_interfaces
  add_interfaces-Leaves m r [] ports s t g c = (g, omega (arith, c))
  add_interfaces-Leaves m r (i ∷ is) ports s t g c =
      add_port-Leaves m r i ports s t _ (add_interfaces train r is) g refl λ p w h.
        add_interfaces-Leaves m r is (ports ++ (p ∷ [])) s w h
          (omega (arith, c, length-append_one p ports))

  -- behind the creation of the router
  pub created-Grown :
      (q : RouterResult) (s t : S) (r : RouterResult)
      → train.create_router q s ≡ (t, Result.ok r)
      → Grown r.uuid [] [] s t
  created-Grown q s t r e =
      let k = law.create_router-made q s t r e in
      record {
        fresh = k.0;
        routers = k.1;
        distinct = tt;
        new = λ y h. absurd (ground (arith, h));
        apart = λ y h. refl;
        has = k.2;
        links = k.3;
        bare = law.create_router-routes q s t r e;
      }
