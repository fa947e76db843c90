-- ===== src/Instances/Tests.antt =====
-- Runs of `CreateInstance` on a cloud with one port and one server.
mod SmallCloud
use cdm_center.Prelude.{
  String, Bool, true, false, Option, none, some, List, [], ◌∷◌, ◌++◌, map, ◌≡◌, refl, ◌==◌,
  if◌then◌else◌, String-Eq,
}
use cdm_center.Prelude.Int.{ℤ, pos}
use cdm_center.Errors.{Error}
use cdm_center.Cluster.Store.{Result}
use cdm_center.Instances.{
  CreateInstanceRequest, Instance, port_request, connected, connect, port_created, create_ports,
  server_request, delete_ports, undo_server, undo, with_state, with_details, with_server,
  with_ports, create_instance, instance_state_map,
}
use cdm_center.Instances.Undone.{Complete, create_instance-undone, create_instance-Complete}
use cdm_center.Instances.Tests.SmallCloud.{
  World, cloud, cloud_laws, cloud_deletes, has_the_port, has_the_server,
}

abbrev empty_cloud : World
empty_cloud = record { port = false; server = false }

abbrev request : String → CreateInstanceRequest
request name = record {
  hypervisor_hostname = "";
  availability_zone = "nova";
  instance_spec = "flavor";
  keypair = "";
  instance_name = name;
  instance_description = none;
  user_data = "";
  assigned_networks =
      record {
        network = "n";
        subnet = "sub";
        floating_ip = some (record { uuid = "f"; description = none });
        ip_address = "10.0.0.2";
      }
      ∷ [];
  assigned_security_groups = record { uuid = "sg"; name = "default" } ∷ [];
  attached_volumes = record { volume = "v"; device_path = "/dev/vda"; boot_index = pos 0 } ∷ [];
}

abbrev made : Instance
made = record {
  uuid = "i";
  name = "instance";
  description = none;
  state = "RUNNING";
  status = "ACTIVE";
  raw = "";
}

good_run : (create_instance cloud (request "good") empty_cloud).1 ≡ Result.ok made
unfolding create_instance with_ports with_server with_details with_state create_ports port_created
    connect connected server_request instance_state_map
good_run = refl

bad_run :
    (create_instance cloud (request "bad") empty_cloud).1 ≡ Result.error (Error.other "timeout")
unfolding create_instance with_ports with_server with_details with_state create_ports port_created
    connect connected server_request undo
bad_run = refl

create_instance-undone_example :
    ((q : String)
      → has_the_port q (create_instance cloud (request "bad") empty_cloud).0
        ≡ has_the_port q empty_cloud)
    × ((v : String)
        → has_the_server v (create_instance cloud (request "bad") empty_cloud).0
          ≡ has_the_server v empty_cloud)
create_instance-undone_example =
    create_instance-undone cloud cloud_laws cloud_deletes (request "bad") empty_cloud
      (Error.other "timeout") bad_run refl

create_instance-Complete_example :
    Complete cloud cloud_laws 1 empty_cloud
      (create_instance cloud (request "good") empty_cloud).0
      made
create_instance-Complete_example =
    create_instance-Complete cloud cloud_laws cloud_deletes (request "good") empty_cloud made
      good_run
