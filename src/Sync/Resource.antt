-- ===== src/Sync/Resource.antt =====
-- The resource types of cluster-manager/sync/sync.go, the options of
-- cluster-manager/sync/options.go, and the failure message and synchronization status of
-- cluster-manager/internal/cluster/cluster_util.go. The program names a resource type by a string;
-- the strings that it defines are the constructors, and `code` gives the string.
use Prim.Native.String
use cdm_center.Prelude.{
  ℕ, String, Bool, true, false, Comparable, ◌≡◌, ◌↔◌, refl, ap, some, eq_iff, if◌then◌else◌, str_eq,
  eq_refl, Option, none, List, [],
}

pub data Resource : Type 0 where
  tenant_list tenant : Resource
  availability_zone_list : Resource
  hypervisor_list : Resource
  security_group_list security_group security_group_rule : Resource
  network_list network : Resource
  subnet : Resource
  router_list router : Resource
  floating_ip : Resource
  storage_list storage : Resource
  volume_list volume : Resource
  volume_snapshot_list volume_snapshot : Resource
  keypair_list keypair : Resource
  instance_list instance_ : Resource
  instance_spec_list : Resource

abbrev pub code : Resource → String
code tenant_list = "cluster.tenant.list.sync"
code tenant = "cluster.tenant.sync"
code availability_zone_list = "cluster.availability_zone.list.sync"
code hypervisor_list = "cluster.hypervisor.list.sync"
code security_group_list = "cluster.security_group.list.sync"
code security_group = "cluster.security_group.sync"
code security_group_rule = "cluster.security_group_rule.sync"
code network_list = "cluster.network.list.sync"
code network = "cluster.network.sync"
code subnet = "cluster.subnet.sync"
code router_list = "cluster.router.list.sync"
code router = "cluster.router.sync"
code floating_ip = "cluster.floating-ip.sync"
code storage_list = "cluster.storage.list.sync"
code storage = "cluster.storage.sync"
code volume_list = "cluster.volume.list.sync"
code volume = "cluster.volume.sync"
code volume_snapshot_list = "cluster.volume-snapshot.list.sync"
code volume_snapshot = "cluster.volume-snapshot.sync"
code keypair_list = "cluster.keypair.list.sync"
code keypair = "cluster.keypair.sync"
code instance_list = "cluster.instance.list.sync"
code instance_ = "cluster.instance.sync"
code instance_spec_list = "cluster.instance.spec.list.sync"

-- The type that a string names.
of_code : String → Option Resource
of_code c =
    if str_eq c "cluster.tenant.list.sync"
    then some tenant_list
    else if str_eq c "cluster.tenant.sync"
    then some tenant
    else if str_eq c "cluster.availability_zone.list.sync"
    then some availability_zone_list
    else if str_eq c "cluster.hypervisor.list.sync"
    then some hypervisor_list
    else if str_eq c "cluster.security_group.list.sync"
    then some security_group_list
    else if str_eq c "cluster.security_group.sync"
    then some security_group
    else if str_eq c "cluster.security_group_rule.sync"
    then some security_group_rule
    else if str_eq c "cluster.network.list.sync"
    then some network_list
    else if str_eq c "cluster.network.sync"
    then some network
    else if str_eq c "cluster.subnet.sync"
    then some subnet
    else if str_eq c "cluster.router.list.sync"
    then some router_list
    else if str_eq c "cluster.router.sync"
    then some router
    else if str_eq c "cluster.floating-ip.sync"
    then some floating_ip
    else if str_eq c "cluster.storage.list.sync"
    then some storage_list
    else if str_eq c "cluster.storage.sync"
    then some storage
    else if str_eq c "cluster.volume.list.sync"
    then some volume_list
    else if str_eq c "cluster.volume.sync"
    then some volume
    else if str_eq c "cluster.volume-snapshot.list.sync"
    then some volume_snapshot_list
    else if str_eq c "cluster.volume-snapshot.sync"
    then some volume_snapshot
    else if str_eq c "cluster.keypair.list.sync"
    then some keypair_list
    else if str_eq c "cluster.keypair.sync"
    then some keypair
    else if str_eq c "cluster.instance.list.sync"
    then some instance_list
    else if str_eq c "cluster.instance.sync"
    then some instance_
    else if str_eq c "cluster.instance.spec.list.sync"
    then some instance_spec_list
    else none

of_code-code : (r : Resource) → of_code (code r) ≡ some r
unfolding of_code
of_code-code tenant_list = refl
of_code-code _ = refl

-- Two types are equal when their strings are.
code-injective : (r s : Resource) → code r ≡ code s → r ≡ s
code-injective r s h = cc (of_code-code r, of_code-code s, ap of_code h)

abbrev pub resource_eq : Resource → Resource → Bool
resource_eq r s = str_eq (code r) (code s)

pub resource_eq_iff : (r s : Resource) → (resource_eq r s ≡ true) ↔ (r ≡ s)
resource_eq_iff r s = (λ h. code-injective r s ((eq_iff _ _).0 h), λ e. rw e (eq_refl (code s)))

instance abbrev pub Resource-Eq : Comparable Resource
Resource-Eq = record { same = resource_eq; same_iff = resource_eq_iff }

-- sync/options.go
pub record Options : Type 0 where
  pub force : Bool
  pub tenant_uuid : String

abbrev pub no_options : Options
no_options = record { force = false; tenant_uuid = "" }

abbrev pub with_tenant_uuid : String → Options → Options
with_tenant_uuid u o = record o { tenant_uuid = u }

-- `for _, o := range opts { o(&options) }`
abbrev pub apply_options : List (Options → Options) → Options → Options
apply_options List.[] o = o
apply_options (List.◌∷◌ f fs) o = apply_options fs (f o)

pub record Message : Type 0 where
  pub code : String
  pub contents : String

unfoldable pub make_failed_message : Resource → Message
make_failed_message r = record {
  code = String.◌++◌ (String.◌++◌ "cluster-manager." (code r)) ".failed";
  contents = "contents not defined";
}

-- A time is a number of seconds, and `none` is Go's zero time.
pub record SyncStatus : Type 0 where
  pub status_code : String
  pub reasons : List Message
  pub started_at : Option ℕ

abbrev pub status_of : String → SyncStatus
status_of c = record { status_code = c; reasons = []; started_at = none }
