-- ===== src/Sync/Reserve.antt =====
-- Reservations of synchronization: `ReservedSynchronizer`, its method `reserve` and the function
-- `Reserve` of cluster-manager/sync/sync.go. The method and the function differ only in case there;
-- the function is `reserve_cluster` here. The map under the mutex is the argument and the result.
pub mod Entry
use cdm_center.Prelude.{
  ℕ, String, Bool, true, false, ◌&&◌, not, Option, none, some, List, [], ◌==◌, if◌then◌else◌,
  String-Eq, ℕ-Eq,
}
use cdm_center.Prelude.Dict.{Dict, lookup, insert}
use cdm_center.Sync.Resource.{Resource, Options, no_options, apply_options}

pub record ReservedSynchronizer : Type 0 where
  pub availability_zone_list : Bool
  pub hypervisor_list : Bool
  pub projects : Dict String Bool
  pub instances : Dict String String
  pub keypairs : Dict String Bool
  pub volumes : Dict String String
  pub volume_snapshots : Dict String String
  pub volume_types : Dict String Bool
  pub networks : Dict String String
  pub subnets : Dict String String
  pub security_groups : Dict String String
  pub security_group_rules : Dict String String
  pub routers : Dict String String
  pub floating_ips : Dict String String

abbrev pub empty : ReservedSynchronizer
empty = record {
  availability_zone_list = false;
  hypervisor_list = false;
  projects = [];
  instances = [];
  keypairs = [];
  volumes = [];
  volume_snapshots = [];
  volume_types = [];
  networks = [];
  subnets = [];
  security_groups = [];
  security_group_rules = [];
  routers = [];
  floating_ips = [];
}

abbrev pub is_list : Resource → Bool
is_list Resource.availability_zone_list = true
is_list Resource.hypervisor_list = true
is_list _ = false

-- the `switch` of `reserve`; the types that it does not name change nothing
unfoldable pub record_reservation :
    Resource → String → Options → ReservedSynchronizer → ReservedSynchronizer
record_reservation Resource.availability_zone_list uuid o rs = record rs {
  availability_zone_list = true;
}
record_reservation Resource.hypervisor_list uuid o rs = record rs { hypervisor_list = true }
record_reservation Resource.tenant uuid o rs = record rs { projects = insert uuid true rs.projects }
record_reservation Resource.keypair uuid o rs = record rs {
  keypairs = insert uuid true rs.keypairs;
}
record_reservation Resource.storage uuid o rs = record rs {
  volume_types = insert uuid true rs.volume_types;
}
record_reservation Resource.instance_ uuid o rs = record rs {
  instances = insert uuid o.tenant_uuid rs.instances;
}
record_reservation Resource.volume uuid o rs = record rs {
  volumes = insert uuid o.tenant_uuid rs.volumes;
}
record_reservation Resource.volume_snapshot uuid o rs = record rs {
  volume_snapshots = insert uuid o.tenant_uuid rs.volume_snapshots;
}
record_reservation Resource.network uuid o rs = record rs {
  networks = insert uuid o.tenant_uuid rs.networks;
}
record_reservation Resource.subnet uuid o rs = record rs {
  subnets = insert uuid o.tenant_uuid rs.subnets;
}
record_reservation Resource.security_group uuid o rs = record rs {
  security_groups = insert uuid o.tenant_uuid rs.security_groups;
}
record_reservation Resource.security_group_rule uuid o rs = record rs {
  security_group_rules = insert uuid o.tenant_uuid rs.security_group_rules;
}
record_reservation Resource.router uuid o rs = record rs {
  routers = insert uuid o.tenant_uuid rs.routers;
}
record_reservation Resource.floating_ip uuid o rs = record rs {
  floating_ips = insert uuid o.tenant_uuid rs.floating_ips;
}
record_reservation _ uuid o rs = rs

-- An empty uuid is a reservation only of the two lists.
unfoldable pub reserve :
    Resource → String → List (Options → Options) → ReservedSynchronizer → ReservedSynchronizer
unfolding record_reservation
reserve r uuid opts rs =
    let options = apply_options opts no_options in
    if uuid == "" && not (is_list r) then rs else record_reservation r uuid options rs

-- `reservedSynchronizerMap`, nil until the first reservation
abbrev pub Reservations : Type 0
Reservations = Option (Dict ℕ ReservedSynchronizer)

-- the entry of a cluster; a missing one is made empty
abbrev pub entry_or_empty : Option ReservedSynchronizer → ReservedSynchronizer
entry_or_empty none = empty
entry_or_empty (some rs) = rs

abbrev pub or_empty_map : Reservations → Dict ℕ ReservedSynchronizer
or_empty_map none = []
or_empty_map (some m) = m

unfoldable pub reserve_cluster :
    ℕ → Resource → String → List (Options → Options) → Reservations → Reservations
reserve_cluster cid r uuid opts g =
    let m = or_empty_map g in
    some (insert cid (reserve r uuid opts (entry_or_empty (lookup cid m))) m)
