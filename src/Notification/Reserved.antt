-- ===== src/Notification/Reserved.antt =====
-- What the handler of cluster-manager/client/openstack/notification/notification.go reserves: its
-- calls of `Reserve`, composed with the reservations of cluster-manager/sync/sync.go.
pub mod One
pub mod Elsewhere
use cdm_center.Prelude.{
  ℕ, String, Bool, true, false, Option, none, some, List, [], ◌∷◌, ◌==◌, ◌≡◌, ◌≢◌, refl, ◌∙◌, ap,
  if◌then◌else◌, String-Eq, ℕ-Eq, arith, eq_refl, nat_eq_iff,
}
use cdm_center.Sync.Resource.{Resource, no_options, with_tenant_uuid, Resource-Eq, resource_eq_iff}
use cdm_center.Sync.Reserve.{Reservations, reserve_cluster}
use cdm_center.Sync.Reserve.Entry.{kept_tenant, reserved, reserved-reserve_cluster}
use cdm_center.Notification.{EventType, Subject, subject, is_deletion}
use cdm_center.Notification.Payload.{Fields, has_text, text_at, object_at}
use cdm_center.Notification.Keys.{
  has_keys, has_keys_in, has_keys_of, has_subject_keys, is_existed_key,
}
use cdm_center.Notification.Calls.{
  Call, End, Handled, World, call, call_for, with_calls, reserve_one, reserve_top, reserve_in,
}
use cdm_center.Notification.Handler.{
  Decoder, guarded, reserve_subject, handle_message, handle_event, handle_body, reserve_calls,
  is_floating_ip_update,
}
use cdm_center.Notification.Reserved.One.{
  resource_of, text_of, object_of, uuid_key, given, Reserves, in-Reserves, type-Reserves,
  top-Reserves, one-Reserves,
}

-- the subjects whose deletion names a tenant
abbrev has_deletion : Subject → Bool
has_deletion Subject.keypair = false
has_deletion Subject.project = false
has_deletion Subject.role_assignment = false
has_deletion Subject.volume_type = false
has_deletion Subject.volume_type_extra_specs = false
has_deletion _ = true

is_deletion-has_deletion :
    (e : EventType) → has_deletion (subject e) ≡ false → is_deletion e ≡ false
is_deletion-has_deletion EventType.project_created h = refl
is_deletion-has_deletion _ h = ground (arith, h)

some_resource : {r s : Resource} → some r ≡ some s → r ≡ s
some_resource {r} h = ap (λ o. elim o [ none ↦ r | some x ↦ x ]) h

subject-Reserves :
    (w : World) (s : Subject) (deletion update : Bool) (p : Fields) (r : Resource) (u t : String)
    → (has_deletion s ≡ false → deletion ≡ false)
    → resource_of s ≡ some r
    → text_of (uuid_key s) (object_of s p) ≡ some u
    → (u == "") ≡ false
    → (deletion ≡ true → text_of "tenant_id" (object_of s p) ≡ some t)
    → (t == "") ≡ false
    → Reserves w.cluster_id r u
        (given deletion t)
        (guarded (has_subject_keys s deletion p) (reserve_subject w s deletion update p))
unfolding resource_of text_of uuid_key object_of has_subject_keys reserve_subject has_keys_in
    kept_tenant has_keys reserve_top
subject-Reserves w Subject.project deletion update p r u t d at e n et nt =
    rw (← some_resource at, d refl)
      (top-Reserves w.cluster_id Resource.tenant "resource_info" u p refl e n)
subject-Reserves w Subject.role_assignment deletion update p r u t d at e n et nt =
    rw (← some_resource at, d refl)
      (top-Reserves w.cluster_id Resource.tenant "project" u p refl e n)
subject-Reserves w Subject.instance_ deletion update p r u t d at e n et nt =
    rw (← some_resource at) (
      one-Reserves w.cluster_id Resource.instance_ deletion u t (text_at "instance_id" p)
        (text_at "tenant_id" p) refl (λ f. refl) e n et nt)
subject-Reserves w Subject.volume deletion update p r u t d at e n et nt = rw (← some_resource at) (
    one-Reserves w.cluster_id Resource.volume deletion u t (text_at "volume_id" p)
      (text_at "tenant_id" p) refl (λ f. refl) e n et nt)
subject-Reserves w Subject.volume_snapshot deletion update p r u t d at e n et nt =
    rw (← some_resource at) (
      one-Reserves w.cluster_id Resource.volume_snapshot deletion u t (text_at "snapshot_id" p)
        (text_at "tenant_id" p) refl (λ f. refl) e n et nt)
subject-Reserves w Subject.volume_type deletion update p r u t d at e n et nt =
    rw (← some_resource at, d refl) (type-Reserves w.cluster_id u (object_at "volume_types" p) e n)
subject-Reserves w Subject.volume_type_extra_specs deletion update p r u t d at e n et nt =
    rw (← some_resource at, d refl)
      (top-Reserves w.cluster_id Resource.storage "type_id" u p refl e n)
subject-Reserves w Subject.network deletion update p r u t d at e n et nt =
    rw (← some_resource at) (
      in-Reserves w.cluster_id Resource.network deletion u t (object_at "network" p) refl
        (λ f. refl) e n et nt)
subject-Reserves w Subject.subnet deletion update p r u t d at e n et nt = rw (← some_resource at) (
    in-Reserves w.cluster_id Resource.subnet deletion u t (object_at "subnet" p) refl (λ f. refl) e
      n et nt)
subject-Reserves w Subject.security_group deletion update p r u t d at e n et nt =
    rw (← some_resource at) (
      in-Reserves w.cluster_id Resource.security_group deletion u t (object_at "security_group" p)
        refl (λ f. refl) e n et nt)
subject-Reserves w Subject.security_group_rule deletion update p r u t d at e n et nt =
    rw (← some_resource at) (
      in-Reserves w.cluster_id Resource.security_group_rule deletion u t
        (object_at "security_group_rule" p) refl (λ f. refl) e n et nt)
subject-Reserves w Subject.router deletion update p r u t d at e n et nt = rw (← some_resource at) (
    in-Reserves w.cluster_id Resource.router deletion u t (object_at "router" p) refl (λ f. refl) e
      n et nt)
subject-Reserves w Subject.router_interface deletion update p r u t d at e n et nt =
    rw (← some_resource at) (
      in-Reserves w.cluster_id Resource.router deletion u t (object_at "router_interface" p) refl
        (λ f. refl) e n et nt)
subject-Reserves w Subject.keypair deletion update p r u t d at e n et nt =
    rw (← some_resource at, d refl)
      (top-Reserves w.cluster_id Resource.keypair "key_name" u p refl e n)
subject-Reserves w _ deletion update p r u t d at e n et nt = absurd (ground (arith, at))

-- An event about one resource that its payload names, with a uuid that is not empty and, for a
-- deletion of a resource that has a tenant, the uuid of the tenant, not empty either: the handler
-- returns without an error, and the resource is reserved for the handler's cluster, under the tenant
-- for such a deletion and else under none. Deletions of projects, volume types and keypairs
-- (`is_deletion` is false for them) are among the events that name no tenant.
pub reserved-handle_message :
    (w : World) (e : EventType) (p : Fields) (r : Resource) (u t : String) (g : Reservations)
    → resource_of (subject e) ≡ some r
    → text_of (uuid_key (subject e)) (object_of (subject e) p) ≡ some u
    → (u == "") ≡ false
    → (is_deletion e ≡ true → text_of "tenant_id" (object_of (subject e) p) ≡ some t)
    → (t == "") ≡ false
    → ((handle_message w e p).ends ≡ End.returned none)
      × (reserved (reserve_calls (handle_message w e p).calls g) w.cluster_id r u
          ≡ some (if is_deletion e then t else ""))
unfolding handle_message is_existed_key Reserves
reserved-handle_message w e p r u t g at eu n et nt =
    subject-Reserves w (subject e) (is_deletion e) (is_floating_ip_update e) p r u t
      (is_deletion-has_deletion e) at eu n et nt g
