-- ===== src/Instances/Cloud.antt =====
-- What cluster-manager/client/openstack/openstack.go relies on of the cloud when it creates an
-- instance: which ports and servers there are behind each call of the parameter `Train`. A creation
-- that the cloud refuses has made nothing; nothing is said of one whose answer could not be read.
use cdm_center.Prelude.{String, Bool, true, false, none, some, ◌≡◌, ◌==◌, if◌then◌else◌, String-Eq}
use cdm_center.Errors.{Error, is_refusal}
use cdm_center.Steps.{Made, made_of}
use cdm_center.Cluster.Store.{Result}
use cdm_center.Instances.{PortRequest, FloatingIpUpdate, ServerRequest, Server, Train}

pub record Lawful {S : Type 0} (train : Train S) : Type 0 where
  pub has_port : String → S → Bool
  pub has_server : String → S → Bool
  pub create_port-made :
      (r : PortRequest) (s t : S) (p : String)
      → train.create_port r s ≡ (t, Result.ok p)
      → (has_port p s ≡ false)
        × ((q : String) → has_port q t ≡ (if q == p then true else has_port q s))
        × ((v : String) → has_server v t ≡ has_server v s)
  pub create_port-refused :
      (r : PortRequest) (s t : S) (e : Error)
      → train.create_port r s ≡ (t, Result.error e)
      → is_refusal e ≡ true
      → ((q : String) → has_port q t ≡ has_port q s)
        × ((v : String) → has_server v t ≡ has_server v s)
  pub update_floating_ip-kept :
      (r : FloatingIpUpdate) (s : S)
      → ((q : String) → has_port q (train.update_floating_ip r s).0 ≡ has_port q s)
        × ((v : String) → has_server v (train.update_floating_ip r s).0 ≡ has_server v s)
  -- The server is new, whether it becomes active or not.
  pub create_server-made :
      (r : ServerRequest) (s t : S) (m : Made String) (u : String)
      → train.create_server r s ≡ (t, m)
      → made_of m ≡ some u
      → (has_server u s ≡ false)
        × ((v : String) → has_server v t ≡ (if v == u then true else has_server v s))
        × ((q : String) → has_port q t ≡ has_port q s)
  pub create_server-refused :
      (r : ServerRequest) (s t : S) (e : Error)
      → train.create_server r s ≡ (t, Made.refused e)
      → is_refusal e ≡ true
      → ((v : String) → has_server v t ≡ has_server v s)
        × ((q : String) → has_port q t ≡ has_port q s)
  pub show_server-uuid :
      (u : String) (s : S) (d : Server) → train.show_server u s ≡ Result.ok d → d.uuid ≡ u
  pub delete_port-kept :
      (p : String) (s t : S)
      → train.delete_port p s ≡ (t, none)
      → ((q : String) → has_port q t ≡ (if q == p then false else has_port q s))
        × ((v : String) → has_server v t ≡ has_server v s)
  -- Ports that were not made for the server stay.
  pub delete_server-kept :
      (u : String) (s t : S)
      → train.delete_server u s ≡ (t, none)
      → ((v : String) → has_server v t ≡ (if v == u then false else has_server v s))
        × ((q : String) → has_port q t ≡ has_port q s)

-- The cloud deletes what there is, as long as it can be reached.
pub record Deletes {S : Type 0} (train : Train S) (law : Lawful train) : Type 0 where
  pub delete_port_works :
      (p : String) (s : S) → law.has_port p s ≡ true → (t : S) × (train.delete_port p s ≡ (t, none))
  pub delete_server_works :
      (u : String) (s : S)
      → law.has_server u s ≡ true
      → (t : S) × (train.delete_server u s ≡ (t, none))
