-- ===== src/Routers/Undone.antt =====
-- What a `CreateRouter` of cluster-manager/client/openstack/openstack.go leaves, for each of its ends.
use cdm_center.Prelude.{
  ℕ, String, Bool, true, false, ◌||◌, Option, none, some, List, [], ◌∷◌, ◌≡◌, refl, subst, ◌∙◌,
  arith, ◌==◌, if◌then◌else◌, String-Eq, Bool-cases, inl, inr,
}
use cdm_center.Prelude.Lists.{length}
use cdm_center.Errors.{Error, is_remote_server_error, is_refusal}
use cdm_center.Cluster.Store.{Result}
use cdm_center.Instances.Ports.{listed, Distinct}
use cdm_center.Instances.{FixedIp}
use cdm_center.Routers.{
  Route, Port, RouterResult, RoutingInterface, CreateRouterRequest, CreateRouterResponse, Train,
  Ended, returned, panicked, Connected, Outcome, fail, with_routes, add_extra_routes,
  with_internals, with_list, with_interfaces, with_router, with_gateway, create_router,
  internals_of, response, add_interfaces, router_request, gateway_ips, first_network,
}
use cdm_center.Routers.Cloud.{Lawful, Removes}
use cdm_center.Routers.Interfaces.{
  Grown, Grown-moved, Left, Leaves, add_interfaces-Leaves, created-Grown,
}
use cdm_center.Routers.Cut.{undo_router-Left}

-- Whether a call ends in a panic or with an error that is a refusal.
abbrev pub is_refused : {A : Type 0} → Ended A → Bool
is_refused panicked = true
is_refused (returned (Result.error e)) = is_refusal e
is_refused (returned (Result.ok x)) = false

module _ {S : Type 0} (train : Train S) (law : Lawful train) (removes : Removes train law) where
  -- Against s, t has the router r, n ports that are new and connected with it, and nothing else.
  pub record Complete (n : ℕ) (r : String) (s t : S) : Type 0 where
    pub ports : List String
    pub counted : length ports ≡ n
    pub distinct : Distinct ports
    pub new_ports : (q : String) → listed q ports ≡ true → law.has_port q s ≡ false
    pub has_ports : (q : String) → law.has_port q t ≡ (listed q ports || law.has_port q s)
    pub links :
        (q : String) → law.router_of q t ≡ (if listed q ports then some r else law.router_of q s)
    pub new_router : law.has_router r s ≡ false
    pub has_routers :
        (x : String) → law.has_router x t ≡ (if x == r then true else law.has_router x s)

  Grown-Complete :
      (n : ℕ) (r : String) (ports : List String) (s t u : S)
      → Grown train law r ports [] s t
      → length ports ≡ n
      → ((y : String) → law.router_of y u ≡ law.router_of y t)
        × ((y : String) → law.has_port y u ≡ law.has_port y t)
        × ((x : String) → law.has_router x u ≡ law.has_router x t)
      → Complete n r s u
  Grown-Complete n r ports s t u g c k = record {
    ports = ports;
    counted = c;
    distinct = g.distinct;
    new_ports = g.new;
    has_ports = λ q. k.1 q ∙ g.has q;
    links = λ q. k.0 q ∙ g.links q;
    new_router = g.fresh;
    has_routers = λ x. k.2 x ∙ g.routers x;
  }

  -- What each end means; nothing is known behind an error that is no refusal.
  abbrev Sound : ℕ → S → Outcome train → Type 0
  Sound n s (t, panicked) = (left : List String) × Left train law left s t
  Sound n s (t, returned (Result.error e)) =
      is_refusal e ≡ true → (left : List String) × Left train law left s t
  Sound n s (t, returned (Result.ok x)) = Complete n x.uuid s t

  with_routes-Sound :
      (n : ℕ) (r : RouterResult) (ports : List String) (is : List RoutingInterface)
      (rs : List Route) (s t : S) (o : S × Result (List Route) Error)
      → Grown train law r.uuid ports [] s t
      → length ports ≡ n
      → train.add_routes r.uuid rs t ≡ o
      → Sound n s (with_routes train r ports is o)
  unfolding with_routes fail response
  with_routes-Sound n r ports is rs s t (u, Result.ok routes) g c e =
      Grown-Complete n r.uuid ports s t u g c (law.add_routes-kept r.uuid rs t u _ e)
  with_routes-Sound n r ports is rs s t (u, Result.error x) g c e =
      let k = law.add_routes-kept r.uuid rs t u _ e in
      elim (Bool-cases (is_remote_server_error x)) [
        | inl y ↦ rw y (Grown-Complete n r.uuid ports s t u g c k)
        | inr other ↦ rw other λ y.
            let bare = law.add_routes-refused r.uuid rs t u x r.uuid e y ∙ g.bare in
            let h = Grown-moved train law r.uuid ports [] s t u g k.0 k.1 k.2 bare in
            ([], undo_router-Left train law removes r ports [] s u (omega arith) h)
      ]

  add_extra_routes-Sound :
      (n : ℕ) (r : RouterResult) (ports : List String) (is : List RoutingInterface)
      (rs : List Route) (s t : S)
      → Grown train law r.uuid ports [] s t
      → length ports ≡ n
      → Sound n s (add_extra_routes train r ports is rs t)
  unfolding add_extra_routes response
  add_extra_routes-Sound n r ports is [] s t g c =
      Grown-Complete n r.uuid ports s t t g c ((λ y. refl), (λ y. refl), (λ x. refl))
  add_extra_routes-Sound n r ports is (x ∷ xs) s t g c =
      with_routes-Sound n r ports is (x ∷ xs) s t (train.add_routes r.uuid (x ∷ xs) t) g c refl

  with_internals-Sound :
      (n : ℕ) (r : RouterResult) (ports : List String) (rs : List Route) (s t : S)
      (o : Option (List RoutingInterface))
      → Grown train law r.uuid ports [] s t
      → length ports ≡ n
      → Sound n s (with_internals train r ports rs t o)
  unfolding with_internals
  with_internals-Sound n r ports rs s t none g c =
      ([], undo_router-Left train law removes r ports [] s t (omega arith) g)
  with_internals-Sound n r ports rs s t (some is) g c =
      add_extra_routes-Sound n r ports is rs s t g c

  with_list-Sound :
      (n : ℕ) (r : RouterResult) (ports : List String) (rs : List Route) (s t : S)
      (o : Result (List Port) Error)
      → Grown train law r.uuid ports [] s t
      → length ports ≡ n
      → Sound n s (with_list train r ports rs t o)
  unfolding with_list fail
  with_list-Sound n r ports rs s t (Result.error e) g c =
      λ y. ([], undo_router-Left train law removes r ports [] s t (omega arith) g)
  with_list-Sound n r ports rs s t (Result.ok list) g c =
      with_internals-Sound n r ports rs s t (internals_of list) g c

  with_interfaces-Sound :
      (n : ℕ) (r : RouterResult) (rs : List Route) (s : S) (c : Connected train)
      → Leaves train law n r.uuid s c
      → Sound n s (with_interfaces train r rs c)
  unfolding with_interfaces fail
  with_interfaces-Sound n r rs s (t, ports, none) g =
      with_list-Sound n r ports rs s t (train.list_ports r.uuid t) g.0 g.1
  with_interfaces-Sound n r rs s (t, ports, some e) g = λ y.
      let (left, few, h) = g y in (left, undo_router-Left train law removes r ports left s t few h)

  with_router-Sound :
      (n : ℕ) (req : CreateRouterRequest) (q : RouterResult) (s : S)
      (o : S × Result RouterResult Error)
      → train.create_router q s ≡ o
      → length req.internals ≡ n
      → Sound n s (with_router train req o)
  unfolding with_router
  with_router-Sound n req q s (t, Result.error e) is c = λ y.
      let k = law.create_router-refused q s t e is y in
      ([], record { few = omega arith; routers = k.0; has = k.1 })
  with_router-Sound n req q s (t, Result.ok r) is c =
      with_interfaces-Sound n r req.extra_routes s (add_interfaces train r.uuid req.internals [] t)
        (add_interfaces-Leaves train law n r.uuid req.internals [] s t
          (created-Grown train law q s t r is) (omega (arith, c)))

  with_gateway-Sound :
      (n : ℕ) (req : CreateRouterRequest) (s : S) (o : Option (List FixedIp))
      → length req.internals ≡ n
      → Sound n s (with_gateway train req s o)
  unfolding with_gateway
  with_gateway-Sound n req s none c =
      λ y. ([], record { few = omega arith; routers = λ x. refl; has = λ q. refl })
  with_gateway-Sound n req s (some ips) c =
      with_router-Sound n req (router_request req ips) s
        (train.create_router (router_request req ips) s) refl c

  create_router-Sound :
      (req : CreateRouterRequest) (s : S)
      → Sound (length req.internals) s (create_router train req s)
  unfolding create_router
  create_router-Sound req s =
      with_gateway-Sound (length req.internals) req s
        (gateway_ips (first_network req.externals) req.externals) refl

  Sound-refused :
      (n : ℕ) (s : S) (o : Outcome train)
      → Sound n s o
      → is_refused o.1 ≡ true
      → (left : List String) × Left train law left s o.0
  Sound-refused n s (t, panicked) h y = h
  Sound-refused n s (t, returned (Result.error e)) h y = h y
  Sound-refused n s (t, returned (Result.ok x)) h y = absurd (ground (arith, y))

  Sound-ok :
      (n : ℕ) (s : S) (o : Outcome train) (x : CreateRouterResponse)
      → Sound n s o
      → o.1 ≡ returned (Result.ok x)
      → Complete n x.uuid s o.0
  Sound-ok n s (t, panicked) x h is = absurd (ground (arith, is))
  Sound-ok n s (t, returned (Result.error e)) x h is = absurd (ground (arith, is))
  Sound-ok n s (t, returned (Result.ok z)) x h is =
      let same : z.uuid ≡ x.uuid = ground (arith, is) in subst (λ u. Complete n u s t) same h

  -- If the cloud removes what it is asked to, a CreateRouter that ends in a panic or returns an
  -- error leaves the routers that there were before, and at most one port besides the ports that
  -- there were, unless the error is `errors.Unknown` or `client.ErrRemoteServerError`, behind
  -- which the answer to a creation may not have been read.
  pub create_router-undone :
      (req : CreateRouterRequest) (s : S)
      → is_refused (create_router train req s).1 ≡ true
      → (left : List String) × Left train law left s (create_router train req s).0
  create_router-undone req s y = Sound-refused _ s _ (create_router-Sound req s) y

  -- A CreateRouter that returns a router has made it new, with as many different ports connected with
  -- it as the request has internal interfaces, all of them new, and all other routers, ports and
  -- connections are as before; the cloud keeps its laws, and removes what it is asked to.
  pub create_router-Complete :
      (req : CreateRouterRequest) (s : S) (x : CreateRouterResponse)
      → (create_router train req s).1 ≡ returned (Result.ok x)
      → Complete (length req.internals) x.uuid s (create_router train req s).0
  create_router-Complete req s x is = Sound-ok _ s _ x (create_router-Sound req s) is
