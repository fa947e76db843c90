-- ===== src/Notification/Returns.antt =====
-- When the handler of cluster-manager/client/openstack/notification/notification.go returns: the
-- assertions without `ok` on the objects of a payload are the only ones that can panic.
pub mod Objects
pub mod Cases
use cdm_center.Prelude.{
  String, Bool, true, false, not, ◌&&◌, ◌||◌, Option, none, some, List, [], ◌∷◌, ◌==◌, ◌≡◌, ◌≢◌,
  refl, sym, ◌∙◌, if◌then◌else◌, String-Eq, Bool-cases, Option-cases, inl, inr, ◌⊎◌, arith, subst,
}
use cdm_center.Errors.{Error}
use cdm_center.Cluster.Store.{Result}
use cdm_center.Sync.Resource.{Resource}
use cdm_center.Notification.{EventType, Subject, subject, is_deletion}
use cdm_center.Notification.Payload.{
  Value, Values, Fields, get, as_text, as_object, as_array, has_text, text_at, object_at,
}
use cdm_center.Notification.Keys.{
  has_keys, has_keys_in, has_keys_of, has_entries, and_tenant, have_instance, has_attachment_keys,
  has_port_keys, has_subject_keys, is_existed_key,
}
use cdm_center.Notification.Calls.{
  End, Handled, World, Port, with_calls, after, reserve_one, reserve_top, reserve_in,
}
use cdm_center.Notification.Cases.{
  reserve_attachments, attach, detach, reserve_attachment, reserve_found, reserve_behind,
  reserve_floating_ip, reserve_floating_ip_of, reserve_detached, find_instance, show_port,
  reserve_port_of, owner_resource, reserve_owner, reserve_port, get_instance_from_floating_ip,
}
use cdm_center.Notification.Handler.{
  guarded, reserve_subject, handle_message, is_floating_ip_update,
}
use cdm_center.Notification.Returns.Objects.{
  is_present, is_object, are_objects, are_objects_if, is_port_id, has_port_id, has_objects, Returns,
  guarded-cases, owner-Returns, some-injective, port-Returns, in-Returns, type-Returns, top-Returns,
  top-Returns_always,
}
use cdm_center.Notification.Returns.Cases.{floating_ip-Returns, attached-Returns}

subject-Returns :
    (w : World) (s : Subject) (deletion update : Bool) (p : Fields)
    → has_objects s update p ≡ true
    → Returns (guarded (has_subject_keys s deletion p) (reserve_subject w s deletion update p))
unfolding has_subject_keys reserve_subject has_objects has_keys_in guarded
subject-Returns w Subject.project deletion update p h =
    top-Returns_always w.cluster_id Resource.tenant "resource_info" p
subject-Returns w Subject.role_assignment deletion update p h =
    top-Returns_always w.cluster_id Resource.tenant "project" p
subject-Returns w Subject.instance_ deletion update p h =
    top-Returns w.cluster_id Resource.instance_ "instance_id" deletion p
subject-Returns w Subject.volume deletion update p h =
    top-Returns w.cluster_id Resource.volume "volume_id" deletion p
subject-Returns w Subject.volume_attachment deletion update p h = attached-Returns w deletion p h
subject-Returns w Subject.volume_snapshot deletion update p h =
    top-Returns w.cluster_id Resource.volume_snapshot "snapshot_id" deletion p
subject-Returns w Subject.volume_type deletion update p h =
    type-Returns w.cluster_id (object_at "volume_types" p) h
subject-Returns w Subject.volume_type_project_access deletion update p h = (none, refl)
subject-Returns w Subject.volume_type_extra_specs deletion update p h =
    top-Returns_always w.cluster_id Resource.storage "type_id" p
subject-Returns w Subject.network deletion update p h =
    in-Returns w.cluster_id Resource.network deletion (object_at "network" p) h
subject-Returns w Subject.subnet deletion update p h =
    in-Returns w.cluster_id Resource.subnet deletion (object_at "subnet" p) h
subject-Returns w Subject.security_group deletion update p h =
    in-Returns w.cluster_id Resource.security_group deletion (object_at "security_group" p) h
subject-Returns w Subject.security_group_rule deletion update p h =
    in-Returns w.cluster_id Resource.security_group_rule deletion
      (object_at "security_group_rule" p) h
subject-Returns w Subject.router deletion update p h =
    in-Returns w.cluster_id Resource.router deletion (object_at "router" p) h
subject-Returns w Subject.router_interface deletion update p h =
    in-Returns w.cluster_id Resource.router deletion (object_at "router_interface" p) h
subject-Returns w Subject.floating_ip deletion update p h =
    floating_ip-Returns w deletion update (object_at "floatingip" p) h
subject-Returns w Subject.port deletion update p h =
    port-Returns w.cluster_id deletion (object_at "port" p) h
subject-Returns w Subject.keypair deletion update p h =
    top-Returns_always w.cluster_id Resource.keypair "key_name" p
subject-Returns w Subject.aggregate deletion update p h = (none, refl)
subject-Returns w Subject.aggregate_host deletion update p h = (none, refl)
subject-Returns w Subject.aggregate_deletion deletion update p h = (none, refl)
subject-Returns w Subject.unhandled deletion update p h = (none, refl)

-- Where the payload of a message has its objects where the handler looks for them, and the port id of
-- a floating IP that is updated is missing or a text (`has_objects`), the handler returns, with or
-- without an error, and does not panic; whatever else the payload lacks and whatever the database and
-- the cluster answer.
pub handle_message-returns :
    (w : World) (e : EventType) (p : Fields)
    → has_objects (subject e) (is_floating_ip_update e) p ≡ true
    → (err : Option Error) × ((handle_message w e p).ends ≡ End.returned err)
unfolding handle_message is_existed_key
handle_message-returns w e p h =
    subject-Returns w (subject e) (is_deletion e) (is_floating_ip_update e) p h
