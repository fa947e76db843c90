-- ===== src/Instances/Undone.antt =====
-- The ports and servers behind `CreateInstance` of cluster-manager/client/openstack/openstack.go, for
-- each of its ends.
use cdm_center.Prelude.{
  ℕ, String, true, false, ◌||◌, Option, none, some, List, ◌≡◌, refl, sym, ◌∙◌, arith, ◌==◌,
  if◌then◌else◌, String-Eq, eq_iff, eq_refl, subst,
}
use cdm_center.Prelude.Lists.{length}
use cdm_center.Errors.{Error, is_refusal}
use cdm_center.Steps.{Made, made_of}
use cdm_center.Cluster.Store.{Result}
use cdm_center.Instances.{
  Server, CreateInstanceRequest, Instance, Train, Ported, instance_state_map, server_request, undo,
  undo_server, with_state, with_details, with_server, with_ports, create_instance,
}
use cdm_center.Instances.Cloud.{Lawful, Deletes}
use cdm_center.Instances.Ports.{
  listed, Distinct, Added, Leaves, create_ports_lem, delete_ports-back,
}

module _ {S : Type 0} (train : Train S) (law : Lawful train) where
  -- the same ports and servers
  abbrev pub Back : S → S → Type 0
  Back s t =
      ((q : String) → law.has_port q t ≡ law.has_port q s)
      × ((v : String) → law.has_server v t ≡ law.has_server v s)

  -- One server and n ports that are new, and otherwise the same ports and servers.
  pub record Complete (n : ℕ) (s t : S) (i : Instance) : Type 0 where
    pub ports : List String
    pub counted : length ports ≡ n
    pub distinct : Distinct ports
    pub new_ports : (q : String) → listed q ports ≡ true → law.has_port q s ≡ false
    pub has_ports : (q : String) → law.has_port q t ≡ (listed q ports || law.has_port q s)
    pub new_server : law.has_server i.uuid s ≡ false
    pub has_servers :
        (v : String) → law.has_server v t ≡ (if v == i.uuid then true else law.has_server v s)

  -- What each result means.
  abbrev Sound : ℕ → S → S × Result Instance Error → Type 0
  Sound n s (t, Result.error e) = is_refusal e ≡ true → Back s t
  Sound n s (t, Result.ok i) = Complete n s t i

  module _ (deletes : Deletes train law) where
    undo_ports-Back :
        (ports : List String) (s t : S)
        → Added train law ports s t
        → Back s (undo train none ports t)
    unfolding undo undo_server
    undo_ports-Back ports s t a =
        let back =
          delete_ports-back train law deletes ports t a.distinct
            (λ q l. ground (arith, l, a.has q)) in
        ((λ q. ground (arith, back.0 q, a.has q, a.new q)), (λ v. back.1 v ∙ a.servers v))

    -- Against t, u has the server x besides.
    record Started (x : String) (t u : S) : Type 0 where
      fresh : law.has_server x t ≡ false
      servers : (v : String) → law.has_server v u ≡ (if v == x then true else law.has_server v t)
      same_ports : (q : String) → law.has_port q u ≡ law.has_port q t

    undo-Back :
        (x : String) (ports : List String) (s t u : S)
        → Added train law ports s t
        → Started x t u
        → Back s (undo train (some x) ports u)
    unfolding undo undo_server
    undo-Back x ports s t u a b =
        let (w, e) = deletes.delete_server_works x u (rw (b.servers x, eq_refl x)) in
        let kept = law.delete_server-kept x u w e in
        let again : Added train law ports s w = record {
          distinct = a.distinct;
          new = a.new;
          has = λ q. kept.1 q ∙ b.same_ports q ∙ a.has q;
          servers = λ v. ground (arith, kept.0 v, b.servers v, b.fresh, a.servers v, eq_iff v x);
        } in
        subst (λ o. Back s (undo train none ports o.0)) (sym e) (undo_ports-Back ports s w again)

    with_state-Sound :
        (n : ℕ) (ports : List String) (x : String) (d : Server) (s t u : S) (o : Option String)
        → Added train law ports s t
        → length ports ≡ n
        → Started x t u
        → d.uuid ≡ x
        → Sound n s (with_state train ports x d u o)
    unfolding with_state
    with_state-Sound n ports x d s t u none a l b e = λ y. undo-Back x ports s t u a b
    with_state-Sound n ports x d s t u (some st) a l b e = record {
      ports = ports;
      counted = l;
      distinct = a.distinct;
      new_ports = a.new;
      has_ports = λ q. b.same_ports q ∙ a.has q;
      new_server = rw e (sym (a.servers x) ∙ b.fresh);
      has_servers = λ v. rw e (ground (arith, b.servers v, a.servers v));
    }

    with_details-Sound :
        (n : ℕ) (ports : List String) (x : String) (s t u : S) (o : Result Server Error)
        → Added train law ports s t
        → length ports ≡ n
        → Started x t u
        → train.show_server x u ≡ o
        → Sound n s (with_details train ports x u o)
    unfolding with_details
    with_details-Sound n ports x s t u (Result.error e) a l b h = λ y. undo-Back x ports s t u a b
    with_details-Sound n ports x s t u (Result.ok d) a l b h =
        with_state-Sound n ports x d s t u (instance_state_map d.state) a l b
          (law.show_server-uuid x u d h)

    with_server-Sound :
        (n : ℕ) (req : CreateInstanceRequest) (ports : List String) (s t u : S) (m : Made String)
        → Added train law ports s t
        → length ports ≡ n
        → train.create_server (server_request req ports) t ≡ (u, m)
        → Sound n s (with_server train ports (u, m))
    unfolding with_server made_of
    with_server-Sound n req ports s t u (Made.refused e) a l h = λ y.
        let kept = law.create_server-refused _ t u e h y in
        undo_ports-Back ports s u (record {
          distinct = a.distinct;
          new = a.new;
          has = λ q. kept.1 q ∙ a.has q;
          servers = λ v. kept.0 v ∙ a.servers v;
        })
    with_server-Sound n req ports s t u (Made.broken x e) a l h =
        let k = law.create_server-made _ t u _ x h refl in
        λ y. undo-Back x ports s t u a (record { fresh = k.0; servers = k.1; same_ports = k.2 })
    with_server-Sound n req ports s t u (Made.made x) a l h =
        let k = law.create_server-made _ t u _ x h refl in
        with_details-Sound n ports x s t u _ a l
          (record { fresh = k.0; servers = k.1; same_ports = k.2 }) refl

    with_ports-Sound :
        (n : ℕ) (req : CreateInstanceRequest) (s : S) (r : Ported train)
        → Leaves train law n s r
        → Sound n s (with_ports train req r)
    unfolding with_ports
    with_ports-Sound n req s (t, ports, some e) a = λ y. undo_ports-Back ports s t (a y)
    with_ports-Sound n req s (t, ports, none) a = with_server-Sound n req ports s t _ _ a.0 a.1 refl

    create_instance-Sound :
        (req : CreateInstanceRequest) (s : S)
        → Sound (length req.assigned_networks) s (create_instance train req s)
    unfolding create_instance
    create_instance-Sound req s =
        with_ports-Sound _ req s _ (create_ports_lem train law _ req.assigned_networks s)

    Sound-error :
        (n : ℕ) (s : S) (r : S × Result Instance Error) (e : Error)
        → Sound n s r
        → r.1 ≡ Result.error e
        → is_refusal e ≡ true
        → Back s r.0
    Sound-error n s (t, Result.error x) e h is y = h (ground (arith, is, y))
    Sound-error n s (t, Result.ok i) e h is y = absurd (ground (arith, is))

    Sound-ok :
        (n : ℕ) (s : S) (r : S × Result Instance Error) (i : Instance)
        → Sound n s r
        → r.1 ≡ Result.ok i
        → Complete n s r.0 i
    Sound-ok n s (t, Result.error x) i h is = absurd (ground (arith, is))
    Sound-ok n s (t, Result.ok j) i h is = subst (λ k. Complete n s t k) (ground (arith, is)) h

    -- If the cloud deletes what it is asked to, a CreateInstance that returns an error leaves the
    -- ports and the servers that there were before, unless the error is `errors.Unknown` or
    -- `client.ErrRemoteServerError`, behind which the answer to a creation may not have been read.
    pub create_instance-undone :
        (req : CreateInstanceRequest) (s : S) (e : Error)
        → (create_instance train req s).1 ≡ Result.error e
        → is_refusal e ≡ true
        → Back s (create_instance train req s).0
    create_instance-undone req s e h y = Sound-error _ s _ e (create_instance-Sound req s) h y

    -- If the cloud deletes what it is asked to, a CreateInstance that returns an instance has made the
    -- server with its uuid and as many different ports as the request has networks, all of them new,
    -- and all other ports and servers are as before.
    pub create_instance-Complete :
        (req : CreateInstanceRequest) (s : S) (i : Instance)
        → (create_instance train req s).1 ≡ Result.ok i
        → Complete (length req.assigned_networks) s (create_instance train req s).0 i
    create_instance-Complete req s i h = Sound-ok _ s _ i (create_instance-Sound req s) h
