-- ===== src/Instances/Tests/SmallCloud.antt =====
-- A cloud with one port and one server at most, for runs of `CreateInstance`.
use cdm_center.Prelude.{
  String, Bool, true, false, ◌&&◌, none, some, ◌≡◌, refl, arith, if◌then◌else◌, ◌==◌, String-Eq,
  eq_iff,
}
use cdm_center.Prelude.Int.{pos}
use cdm_center.Errors.{Error, is_refusal}
use cdm_center.Steps.{Made, made_of}
use cdm_center.Cluster.Store.{Result}
use cdm_center.Instances.{PortRequest, ServerRequest, Server, Train}
use cdm_center.Instances.Cloud.{Lawful, Deletes}

pub record World : Type 0 where
  pub port : Bool
  pub server : Bool

-- A server whose name is "bad" does not become active.
abbrev pub cloud : Train World
cloud = record {
  create_port = λ r s.
      if s.port
      then (s, Result.error (Error.other "conflict"))
      else (record s { port = true }, Result.ok "p");
  update_floating_ip = λ r s. (s, none);
  delete_port = λ p s.
      if p == "p" && s.port then (record s { port = false }, none) else (s, some Error.unknown);
  create_server = λ r s. if s.server then (s, Made.refused (Error.other "quota")) else (
    record s { server = true },
    (if r.name == "bad" then Made.broken "i" (Error.other "timeout") else Made.made "i"),
  );
  show_server = λ u s.
      if s.server
      then Result.ok (record {
        uuid = u;
        name = "instance";
        description = none;
        state = pos 1;
        status = "ACTIVE";
        raw = "";
      })
      else Result.error Error.client_not_found;
  delete_server = λ u s.
      if u == "i" && s.server then (record s { server = false }, none) else (s, some Error.unknown);
}

abbrev pub has_the_port : String → World → Bool
has_the_port p s = p == "p" && s.port

abbrev pub has_the_server : String → World → Bool
has_the_server u s = u == "i" && s.server

pub port_made :
    (r : PortRequest) (s t : World) (p : String)
    → cloud.create_port r s ≡ (t, Result.ok p)
    → (has_the_port p s ≡ false)
      × ((q : String) → has_the_port q t ≡ (if q == p then true else has_the_port q s))
      × ((v : String) → has_the_server v t ≡ has_the_server v s)
port_made r s t p e =
    let made : (s.port ≡ false) × (p ≡ "p") × (t ≡ record s { port = true }) = ground (arith, e) in
    (
      ground (arith, made),
      (λ q. ground (arith, made, eq_iff q p, eq_iff q "p")),
      (λ v. ground (arith, made)),
    )

pub port_refused :
    (r : PortRequest) (s t : World) (x : Error)
    → cloud.create_port r s ≡ (t, Result.error x)
    → is_refusal x ≡ true
    → ((q : String) → has_the_port q t ≡ has_the_port q s)
      × ((v : String) → has_the_server v t ≡ has_the_server v s)
port_refused r s t x e y = ((λ q. ground (arith, e)), (λ v. ground (arith, e)))

pub server_made :
    (r : ServerRequest) (s t : World) (m : Made String) (u : String)
    → cloud.create_server r s ≡ (t, m)
    → made_of m ≡ some u
    → (has_the_server u s ≡ false)
      × ((v : String) → has_the_server v t ≡ (if v == u then true else has_the_server v s))
      × ((q : String) → has_the_port q t ≡ has_the_port q s)
unfolding made_of
server_made r s t m u e h =
    let made : (s.server ≡ false) × (u ≡ "i") × (t ≡ record s { server = true }) =
      ground (arith, e, h) in
    (
      ground (arith, made),
      (λ v. ground (arith, made, eq_iff v u, eq_iff v "i")),
      (λ q. ground (arith, made)),
    )

pub server_refused :
    (r : ServerRequest) (s t : World) (x : Error)
    → cloud.create_server r s ≡ (t, Made.refused x)
    → is_refusal x ≡ true
    → ((v : String) → has_the_server v t ≡ has_the_server v s)
      × ((q : String) → has_the_port q t ≡ has_the_port q s)
server_refused r s t x e y =
    let same : t ≡ s = ground (arith, e) in
    ((λ v. ground (arith, same)), (λ q. ground (arith, same)))

pub server_shown :
    (u : String) (s : World) (d : Server) → cloud.show_server u s ≡ Result.ok d → d.uuid ≡ u
server_shown u s d e = ground (arith, e)

pub port_deleted :
    (p : String) (s t : World)
    → cloud.delete_port p s ≡ (t, none)
    → ((q : String) → has_the_port q t ≡ (if q == p then false else has_the_port q s))
      × ((v : String) → has_the_server v t ≡ has_the_server v s)
port_deleted p s t e =
    ((λ q. ground (arith, e, eq_iff p "p", eq_iff q p, eq_iff q "p")), (λ v. ground (arith, e)))

pub server_deleted :
    (u : String) (s t : World)
    → cloud.delete_server u s ≡ (t, none)
    → ((v : String) → has_the_server v t ≡ (if v == u then false else has_the_server v s))
      × ((q : String) → has_the_port q t ≡ has_the_port q s)
server_deleted u s t e =
    ((λ v. ground (arith, e, eq_iff u "i", eq_iff v u, eq_iff v "i")), (λ q. ground (arith, e)))

abbrev pub cloud_laws : Lawful cloud
cloud_laws = record {
  has_port = has_the_port;
  has_server = has_the_server;
  create_port-made = port_made;
  create_port-refused = port_refused;
  update_floating_ip-kept = λ r s. ((λ q. refl), (λ v. refl));
  create_server-made = server_made;
  create_server-refused = server_refused;
  show_server-uuid = server_shown;
  delete_port-kept = port_deleted;
  delete_server-kept = server_deleted;
}

pub port_deletable :
    (p : String) (s : World)
    → has_the_port p s ≡ true
    → (t : World) × (cloud.delete_port p s ≡ (t, none))
port_deletable p s h = (record s { port = false }, ground (arith, h))

pub server_deletable :
    (u : String) (s : World)
    → has_the_server u s ≡ true
    → (t : World) × (cloud.delete_server u s ≡ (t, none))
server_deletable u s h = (record s { server = false }, ground (arith, h))

abbrev pub cloud_deletes : Deletes cloud cloud_laws
cloud_deletes = record {
  delete_port_works = port_deletable;
  delete_server_works = server_deletable;
}
