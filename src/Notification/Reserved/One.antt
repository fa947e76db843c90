-- ===== src/Notification/Reserved/One.antt =====
-- Which resource a payload names, by the subject of the event, and the reservation of one resource by
-- cluster-manager/client/openstack/notification/notification.go.
use cdm_center.Prelude.{
  ℕ, String, Bool, true, false, Option, none, some, [], ◌∷◌, ◌==◌, ◌≡◌, refl, if◌then◌else◌,
  String-Eq, ℕ-Eq, arith, eq_refl, nat_eq_iff,
}
use cdm_center.Sync.Resource.{Resource, no_options, with_tenant_uuid, Resource-Eq, resource_eq_iff}
use cdm_center.Sync.Reserve.{Reservations}
use cdm_center.Sync.Reserve.Entry.{kept_tenant, reserved, reserved-reserve_cluster}
use cdm_center.Notification.{Subject}
use cdm_center.Notification.Payload.{Fields, has_text, text_at, object_at}
use cdm_center.Notification.Keys.{has_keys, has_keys_of}
use cdm_center.Notification.Calls.{
  End, Handled, call, call_for, with_calls, reserve_one, reserve_top, reserve_in,
}
use cdm_center.Notification.Handler.{guarded, reserve_calls}

-- the type of the resource that an event is about, where it is about one that its payload names
unfoldable pub resource_of : Subject → Option Resource
resource_of Subject.project = some Resource.tenant
resource_of Subject.role_assignment = some Resource.tenant
resource_of Subject.instance_ = some Resource.instance_
resource_of Subject.volume = some Resource.volume
resource_of Subject.volume_snapshot = some Resource.volume_snapshot
resource_of Subject.volume_type = some Resource.storage
resource_of Subject.volume_type_extra_specs = some Resource.storage
resource_of Subject.network = some Resource.network
resource_of Subject.subnet = some Resource.subnet
resource_of Subject.security_group = some Resource.security_group
resource_of Subject.security_group_rule = some Resource.security_group_rule
resource_of Subject.router = some Resource.router
resource_of Subject.router_interface = some Resource.router
resource_of Subject.keypair = some Resource.keypair
resource_of _ = none

-- a text of an object that may be missing
unfoldable pub text_of : String → Option Fields → Option String
unfolding text_at
text_of key none = none
text_of key (some o) = text_at key o

-- The object that names the resource: one with a name, or the payload itself; and the key of its uuid.
unfoldable pub object_of : Subject → Fields → Option Fields
unfolding object_at
object_of Subject.volume_type p = object_at "volume_types" p
object_of Subject.network p = object_at "network" p
object_of Subject.subnet p = object_at "subnet" p
object_of Subject.security_group p = object_at "security_group" p
object_of Subject.security_group_rule p = object_at "security_group_rule" p
object_of Subject.router p = object_at "router" p
object_of Subject.router_interface p = object_at "router_interface" p
object_of _ p = some p

unfoldable pub uuid_key : Subject → String
uuid_key Subject.project = "resource_info"
uuid_key Subject.role_assignment = "project"
uuid_key Subject.instance_ = "instance_id"
uuid_key Subject.volume = "volume_id"
uuid_key Subject.volume_snapshot = "snapshot_id"
uuid_key Subject.volume_type_extra_specs = "type_id"
uuid_key Subject.keypair = "key_name"
uuid_key _ = "id"

abbrev pub given : Bool → String → String
given deletion t = if deletion then t else ""

-- what is reserved for a cluster when a resource is reserved once
unfoldable pub Reserves : ℕ → Resource → String → String → Handled → Type 0
Reserves cid r u t h =
    (g : Reservations)
    → (h.ends ≡ End.returned none) × (reserved (reserve_calls h.calls g) cid r u ≡ some t)

call-Reserves :
    (cid : ℕ) (r : Resource) (u : String)
    → (u == "") ≡ false
    → kept_tenant r no_options ≡ some ""
    → Reserves cid r u "" (with_calls (call cid r u ∷ []) (End.returned none))
unfolding Reserves reserve_calls
call-Reserves cid r u n k g =
    let here = reserved-reserve_cluster cid cid r r u u [] g in
    (refl, ground (arith, here, k, n, eq_refl u, nat_eq_iff cid cid, resource_eq_iff r r))

call_for-Reserves :
    (cid : ℕ) (r : Resource) (u t : String)
    → (u == "") ≡ false
    → kept_tenant r (with_tenant_uuid t no_options) ≡ some t
    → Reserves cid r u t (with_calls (call_for cid t r u ∷ []) (End.returned none))
unfolding Reserves reserve_calls
call_for-Reserves cid r u t n k g =
    let here = reserved-reserve_cluster cid cid r r u u (with_tenant_uuid t ∷ []) g in
    (refl, ground (arith, here, k, n, eq_refl u, nat_eq_iff cid cid, resource_eq_iff r r))

pub one-Reserves :
    (cid : ℕ) (r : Resource) (deletion : Bool) (u t : String) (ou ot : Option String)
    → kept_tenant r no_options ≡ some ""
    → (deletion ≡ true → kept_tenant r (with_tenant_uuid t no_options) ≡ some t)
    → ou ≡ some u
    → (u == "") ≡ false
    → (deletion ≡ true → ot ≡ some t)
    → (t == "") ≡ false
    → Reserves cid r u (given deletion t) (
        guarded
          (some (if has_text ou then if deletion then has_text ot else true else false))
          (reserve_one cid r deletion ou ot))
unfolding guarded reserve_one
one-Reserves cid r false u t ou ot k kt e n et nt = rw (e, n) (call-Reserves cid r u n k)
one-Reserves cid r true u t ou ot k kt e n et nt =
    rw (e, n, et refl, nt) (call_for-Reserves cid r u t n (kt refl))

-- the same for an object of the payload, with or without the tenant among the keys that are checked
pub in-Reserves :
    (cid : ℕ) (r : Resource) (deletion : Bool) (u t : String) (o : Option Fields)
    → kept_tenant r no_options ≡ some ""
    → (deletion ≡ true → kept_tenant r (with_tenant_uuid t no_options) ≡ some t)
    → text_of "id" o ≡ some u
    → (u == "") ≡ false
    → (deletion ≡ true → text_of "tenant_id" o ≡ some t)
    → (t == "") ≡ false
    → Reserves cid r u
        (given deletion t)
        (guarded (has_keys_of "id" deletion "tenant_id" o) (reserve_in cid r deletion o))
unfolding text_of has_keys_of has_keys reserve_in
in-Reserves cid r deletion u t none k kt e n et nt = absurd (ground (arith, e))
in-Reserves cid r deletion u t (some o) k kt e n et nt =
    one-Reserves cid r deletion u t (text_at "id" o) (text_at "tenant_id" o) k kt e n et nt

pub type-Reserves :
    (cid : ℕ) (u : String) (o : Option Fields)
    → text_of "id" o ≡ some u
    → (u == "") ≡ false
    → Reserves cid Resource.storage u ""
        (guarded (has_keys_of "id" false "" o) (reserve_in cid Resource.storage false o))
unfolding text_of has_keys_of has_keys reserve_in kept_tenant
type-Reserves cid u none e n = absurd (ground (arith, e))
type-Reserves cid u (some o) e n =
    one-Reserves cid Resource.storage false u "t" (text_at "id" o) (text_at "tenant_id" o) refl
      (λ f. absurd (ground (arith, f))) e n (λ f. absurd (ground (arith, f))) refl

pub top-Reserves :
    (cid : ℕ) (r : Resource) (key u : String) (p : Fields)
    → kept_tenant r no_options ≡ some ""
    → text_at key p ≡ some u
    → (u == "") ≡ false
    → Reserves cid r u "" (guarded (some (has_keys key false "" p)) (reserve_top cid r key false p))
unfolding has_keys reserve_top
top-Reserves cid r key u p k e n =
    one-Reserves cid r false u "t" (text_at key p) (text_at "tenant_id" p) k
      (λ f. absurd (ground (arith, f))) e n (λ f. absurd (ground (arith, f))) refl
