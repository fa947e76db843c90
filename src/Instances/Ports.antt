-- ===== src/Instances/Ports.antt =====
-- The ports that `createPorts` of cluster-manager/client/openstack/openstack.go makes, and their
-- deletion by the deferred function of `CreateInstance`.
use cdm_center.Prelude.{
  ℕ, ◌+◌, String, Bool, true, false, ◌||◌, Option, none, some, List, [], ◌∷◌, ◌++◌, ◌≡◌, refl, ◌∙◌,
  arith, ◌==◌, if◌then◌else◌, String-Eq, eq_iff, eq_refl,
}
use cdm_center.Prelude.Lists.{length, any}
use cdm_center.Errors.{Error, is_refusal}
use cdm_center.Cluster.Store.{Result}
use cdm_center.Instances.{
  AssignedNetwork, FloatingIp, Train, Ported, port_request, connected, connect, port_created,
  create_ports, delete_ports,
}
use cdm_center.Instances.Cloud.{Lawful, Deletes}

abbrev pub listed : String → List String → Bool
listed p ports = any (λ q. p == q) ports

abbrev pub Distinct : List String → Type 0
Distinct [] = Unit
Distinct (p ∷ ps) = (listed p ps ≡ false) × Distinct ps

pub listed-append :
    (q p : String) (ps : List String)
    → listed q (ps ++ (p ∷ [])) ≡ (if q == p then true else listed q ps)
listed-append q p [] = ground arith
listed-append q p (x ∷ ps) = ground (arith, listed-append q p ps)

pub Distinct-append :
    (p : String) (ps : List String) → Distinct ps → listed p ps ≡ false → Distinct (ps ++ (p ∷ []))
Distinct-append p [] d h = (refl, tt)
Distinct-append p (x ∷ ps) d h = (
  ground (arith, d.0, h, listed-append x p ps, eq_iff x p, eq_iff p x),
  Distinct-append p ps d.1 (ground (arith, h)),
)

pub length-append_one : (p : String) (ps : List String) → length (ps ++ (p ∷ [])) ≡ length ps + 1
length-append_one p [] = omega arith
length-append_one p (x ∷ ps) = omega (arith, length-append_one p ps)

module _ {S : Type 0} (train : Train S) (law : Lawful train) where
  -- Against s, t has the listed ports besides, all of them new.
  pub record Added (ports : List String) (s t : S) : Type 0 where
    pub distinct : Distinct ports
    pub new : (q : String) → listed q ports ≡ true → law.has_port q s ≡ false
    pub has : (q : String) → law.has_port q t ≡ (listed q ports || law.has_port q s)
    pub servers : (v : String) → law.has_server v t ≡ law.has_server v s

  -- Nothing but ports and servers counts.
  Added-moved :
      (ports : List String) (s t u : S)
      → Added ports s t
      → ((q : String) → law.has_port q u ≡ law.has_port q t)
      → ((v : String) → law.has_server v u ≡ law.has_server v t)
      → Added ports s u
  Added-moved ports s t u a p v = record {
    distinct = a.distinct;
    new = a.new;
    has = λ q. p q ∙ a.has q;
    servers = λ w. v w ∙ a.servers w;
  }

  Added-next :
      (ports : List String) (p : String) (s t u : S)
      → Added ports s t
      → law.has_port p t ≡ false
      → ((q : String) → law.has_port q u ≡ (if q == p then true else law.has_port q t))
      → ((v : String) → law.has_server v u ≡ law.has_server v t)
      → Added (ports ++ (p ∷ [])) s u
  Added-next ports p s t u a fresh h v = record {
    distinct = Distinct-append p ports a.distinct (ground (arith, fresh, a.has p));
    new = λ q e. ground (arith, e, listed-append q p ports, a.new q, eq_iff q p, fresh, a.has p);
    has = λ q. ground (arith, h q, a.has q, listed-append q p ports);
    servers = λ w. v w ∙ a.servers w;
  }

  -- What a run of the rest leaves, with the number of ports where there is no error; nothing is known
  -- behind an error that is no refusal.
  abbrev pub Leaves : ℕ → S → Ported train → Type 0
  Leaves n s (t, ports, none) = Added ports s t × (length ports ≡ n)
  Leaves n s (t, ports, some e) = is_refusal e ≡ true → Added ports s t

  connected-Added :
      (ports : List String) (k : ℕ) (s : S) (o : S × Option Error)
      (next : List String → S → Ported train)
      → Added ports s o.0
      → ((u : S) → Added ports s u → Leaves k s (next ports u))
      → Leaves k s (connected train ports o next)
  unfolding connected
  connected-Added ports k s (t, some e) next a rest = λ y. a
  connected-Added ports k s (t, none) next a rest = rest t a

  connect-Added :
      (n : AssignedNetwork) (f : Option FloatingIp) (p : String) (ports : List String) (k : ℕ)
      (s t : S) (next : List String → S → Ported train)
      → Added ports s t
      → ((u : S) → Added ports s u → Leaves k s (next ports u))
      → Leaves k s (connect train n f p ports t next)
  unfolding connect
  connect-Added n none p ports k s t next a rest = rest t a
  connect-Added n (some f) p ports k s t next a rest =
      let kept = law.update_floating_ip-kept _ t in
      connected-Added ports k s _ next (Added-moved ports s t _ a kept.0 kept.1) rest

  port_created-Added :
      (groups ports : List String) (n : AssignedNetwork) (k : ℕ) (s t : S)
      (o : S × Result String Error) (next : List String → S → Ported train)
      → Added ports s t
      → train.create_port (port_request groups n) t ≡ o
      → ((p : String) (u : S)
          → Added (ports ++ (p ∷ [])) s u
          → Leaves k s (next (ports ++ (p ∷ [])) u))
      → Leaves k s (port_created train n ports o next)
  unfolding port_created
  port_created-Added groups ports n k s t (u, Result.error e) next a made rest = λ y.
      let kept = law.create_port-refused _ t u e made y in Added-moved ports s t u a kept.0 kept.1
  port_created-Added groups ports n k s t (u, Result.ok p) next a made rest =
      let new = law.create_port-made _ t u p made in
      connect-Added n n.floating_ip p (ports ++ (p ∷ [])) k s u next
        (Added-next ports p s t u a new.0 new.1 new.2) (rest p)

  create_ports-Added :
      (groups : List String) (ns : List AssignedNetwork) (ports : List String) (s t : S) (k : ℕ)
      → Added ports s t
      → length ports + length ns ≡ k
      → Leaves k s (create_ports train groups ns ports t)
  unfolding create_ports
  create_ports-Added groups [] ports s t k a l = (a, omega (arith, l))
  create_ports-Added groups (n ∷ ns) ports s t k a l =
      port_created-Added groups ports n k s t _ (create_ports train groups ns) a refl λ p u b.
        create_ports-Added groups ns (ports ++ (p ∷ [])) s u k b
          (omega (arith, l, length-append_one p ports))

  -- From no ports on.
  pub create_ports_lem :
      (groups : List String) (ns : List AssignedNetwork) (s : S)
      → Leaves (length ns) s (create_ports train groups ns [] s)
  create_ports_lem groups ns s =
      create_ports-Added groups ns [] s s (length ns)
        (record {
          distinct = tt;
          new = λ q h. absurd (ground (arith, h));
          has = λ q. refl;
          servers = λ v. refl;
        })
        (omega arith)

  -- The deletion takes the ports away that were added.
  pub delete_ports-back :
      (deletes : Deletes train law) (ports : List String) (t : S)
      → Distinct ports
      → ((q : String) → listed q ports ≡ true → law.has_port q t ≡ true)
      → ((q : String)
          → law.has_port q (delete_ports train ports t)
            ≡ (if listed q ports then false else law.has_port q t))
        × ((v : String) → law.has_server v (delete_ports train ports t) ≡ law.has_server v t)
  unfolding delete_ports
  delete_ports-back deletes [] t d h = ((λ q. refl), (λ v. refl))
  delete_ports-back deletes (p ∷ ps) t d h =
      let (u, e) = deletes.delete_port_works p t (h p (rw (eq_refl p))) in
      let kept = law.delete_port-kept p t u e in
      let rest =
        delete_ports-back deletes ps u d.1
          (λ q l. ground (arith, l, d.0, kept.0 q, h q, eq_iff q p)) in
      rw e ((λ q. ground (arith, rest.0 q, kept.0 q)), (λ v. rest.1 v ∙ kept.1 v))
