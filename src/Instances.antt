-- ===== src/Instances.antt =====
-- `createPorts` and `CreateInstance` of cluster-manager/client/openstack/openstack.go, with the states
-- of cluster-manager/client/openstack/codes.go. The calls of cluster-manager/client/openstack/train are
-- a parameter, whose state is that of the cloud.
pub mod Cloud
pub mod Ports
pub mod Undone
mod Tests
use cdm_center.Prelude.{
  ℕ, String, Bool, true, false, Option, none, some, List, [], ◌∷◌, ◌++◌, map, ◌==◌, if◌then◌else◌,
  ℕ-Eq,
}
use cdm_center.Prelude.Int.{ℤ, pos, negsuc}
use cdm_center.Errors.{Error}
use cdm_center.Steps.{Made}
use cdm_center.Cluster.Store.{Result}

pub record FixedIp : Type 0 where
  pub ip_address : String
  pub subnet_uuid : String

-- `PortResult` as `createPorts` fills it
pub record PortRequest : Type 0 where
  pub network_uuid : String
  pub security_groups : List String
  pub fixed_ips : List FixedIp

-- `UpdateFloatingIPRequest`
pub record FloatingIpUpdate : Type 0 where
  pub floating_ip_id : String
  pub port_id : String
  pub fixed_ip_address : String
  pub description : Option String

-- `BlockDeviceMappingV2Array`
pub record BlockDevice : Type 0 where
  pub uuid : String
  pub boot_index : ℤ
  pub device_name : String
  pub source_type : String
  pub destination_type : String

-- `ServerRequest`; networks by their ports, security groups by their names
pub record ServerRequest : Type 0 where
  pub name : String
  pub flavor_ref : String
  pub key_name : String
  pub availability_zone_name : String
  pub hypervisor_hostname : String
  pub user_data : String
  pub description : Option String
  pub networks : List String
  pub block_devices : List BlockDevice
  pub security_groups : List String

-- what the code reads of `ShowServerDetailsResponse`
pub record Server : Type 0 where
  pub uuid : String
  pub name : String
  pub description : Option String
  pub state : ℤ
  pub status : String
  pub raw : String

-- What the code calls of the package train.
pub record Train (S : Type 0) : Type 0 where
  pub create_port : PortRequest → S → S × Result String Error
  pub update_floating_ip : FloatingIpUpdate → S → S × Option Error
  pub delete_port : String → S → S × Option Error
  -- with an error and a uuid where the server did not become active
  pub create_server : ServerRequest → S → S × Made String
  pub show_server : String → S → Result Server Error
  pub delete_server : String → S → S × Option Error

pub record FloatingIp : Type 0 where
  pub uuid : String
  pub description : Option String

-- `client.AssignedNetwork`, by the uuids of the network and the subnet
pub record AssignedNetwork : Type 0 where
  pub network : String
  pub subnet : String
  pub floating_ip : Option FloatingIp
  pub ip_address : String

pub record SecurityGroup : Type 0 where
  pub uuid : String
  pub name : String

-- `client.AttachedVolume`
pub record AttachedVolume : Type 0 where
  pub volume : String
  pub device_path : String
  pub boot_index : ℤ

-- `client.CreateInstanceRequest`, by the fields that the code reads
pub record CreateInstanceRequest : Type 0 where
  pub hypervisor_hostname : String
  pub availability_zone : String
  pub instance_spec : String
  pub keypair : String
  pub instance_name : String
  pub instance_description : Option String
  pub user_data : String
  pub assigned_networks : List AssignedNetwork
  pub assigned_security_groups : List SecurityGroup
  pub attached_volumes : List AttachedVolume

-- the instance of `client.CreateInstanceResponse`
pub record Instance : Type 0 where
  pub uuid : String
  pub name : String
  pub description : Option String
  pub state : String
  pub status : String
  pub raw : String

-- `InstanceStateMap`
unfoldable pub instance_state_map : ℤ → Option String
instance_state_map (negsuc n) = none
instance_state_map (pos n) =
    if n == 0
    then some "NOSTATE"
    else if n == 1
    then some "RUNNING"
    else if n == 3
    then some "PAUSED"
    else if n == 4
    then some "SHUTDOWN"
    else if n == 6
    then some "CRASHED"
    else if n == 7
    then some "SUSPENDED"
    else none

-- Without security groups the list of the request stays nil, which is the empty one.
unfoldable pub port_request : List String → AssignedNetwork → PortRequest
port_request groups n = record {
  network_uuid = n.network;
  security_groups = groups;
  fixed_ips = record { ip_address = n.ip_address; subnet_uuid = n.subnet } ∷ [];
}

unfoldable pub server_request : CreateInstanceRequest → List String → ServerRequest
server_request req ports = record {
  name = req.instance_name;
  flavor_ref = req.instance_spec;
  key_name = req.keypair;
  availability_zone_name = req.availability_zone;
  hypervisor_hostname = req.hypervisor_hostname;
  user_data = req.user_data;
  description = req.instance_description;
  networks = ports;
  block_devices =
      map
        (λ (v : AttachedVolume). record {
          uuid = v.volume;
          boot_index = v.boot_index;
          device_name = v.device_path;
          source_type = "volume";
          destination_type = "volume";
        })
        req.attached_volumes;
  security_groups = map (λ (g : SecurityGroup). g.name) req.assigned_security_groups;
}

module _ {S : Type 0} (train : Train S) where
  -- the ports so far, also behind an error
  abbrev pub Ported : Type 0
  Ported = S × List String × Option Error

  unfoldable pub connected : List String → S × Option Error → (List String → S → Ported) → Ported
  connected ports (s, some e) next = (s, ports, some e)
  connected ports (s, none) next = next ports s

  -- the floating IP of a network, if it has one
  unfoldable pub connect :
      AssignedNetwork
      → Option FloatingIp
      → String
      → List String
      → S
      → (List String → S → Ported)
      → Ported
  unfolding connected
  connect n none port ports s next = next ports s
  connect n (some f) port ports s next =
      connected ports
        (train.update_floating_ip
          (record {
            floating_ip_id = f.uuid;
            port_id = port;
            fixed_ip_address = n.ip_address;
            description = f.description;
          })
          s)
        next

  unfoldable pub port_created :
      AssignedNetwork → List String → S × Result String Error → (List String → S → Ported) → Ported
  unfolding connect
  port_created n ports (s, Result.error e) next = (s, ports, some e)
  port_created n ports (s, Result.ok port) next =
      connect n n.floating_ip port (ports ++ (port ∷ [])) s next

  unfoldable pub create_ports : List String → List AssignedNetwork → List String → S → Ported
  unfolding port_created port_request
  create_ports groups [] ports s = (s, ports, none)
  create_ports groups (n ∷ ns) ports s =
      port_created n ports (train.create_port (port_request groups n) s) (create_ports groups ns)

  unfoldable pub delete_ports : List String → S → S
  delete_ports [] s = s
  delete_ports (p ∷ ps) s = delete_ports ps (train.delete_port p s).0

  unfoldable pub undo_server : Option String → S → S
  undo_server none s = s
  undo_server (some u) s = (train.delete_server u s).0

  -- the deferred function, where `rollback` is true; its errors are only logged
  unfoldable pub undo : Option String → List String → S → S
  unfolding delete_ports undo_server
  undo server ports s = delete_ports ports (undo_server server s)

  unfoldable pub with_state :
      List String → String → Server → S → Option String → S × Result Instance Error
  unfolding undo
  with_state ports u d s none =
      (undo (some u) ports s, Result.error (Error.unknown_instance_state d.name))
  with_state ports u d s (some state) = (
    s,
    Result.ok (record {
      uuid = d.uuid;
      name = d.name;
      description = d.description;
      state = state;
      status = d.status;
      raw = d.raw;
    }),
  )

  unfoldable pub with_details :
      List String → String → S → Result Server Error → S × Result Instance Error
  unfolding with_state instance_state_map undo
  with_details ports u s (Result.error e) = (undo (some u) ports s, Result.error e)
  with_details ports u s (Result.ok d) = with_state ports u d s (instance_state_map d.state)

  unfoldable pub with_server : List String → S × Made String → S × Result Instance Error
  unfolding with_details undo
  with_server ports (s, Made.refused e) = (undo none ports s, Result.error e)
  with_server ports (s, Made.broken u e) = (undo (some u) ports s, Result.error e)
  with_server ports (s, Made.made u) = with_details ports u s (train.show_server u s)

  unfoldable pub with_ports : CreateInstanceRequest → Ported → S × Result Instance Error
  unfolding with_server server_request undo
  with_ports req (s, ports, some e) = (undo none ports s, Result.error e)
  with_ports req (s, ports, none) =
      with_server ports (train.create_server (server_request req ports) s)

  unfoldable pub create_instance : CreateInstanceRequest → S → S × Result Instance Error
  unfolding with_ports create_ports
  create_instance req s = with_ports req (
      create_ports (map (λ (g : SecurityGroup). g.uuid) req.assigned_security_groups)
        req.assigned_networks [] s)
