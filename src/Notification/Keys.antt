-- ===== src/Notification/Keys.antt =====
-- `isExistedKey` of cluster-manager/client/openstack/notification/notification.go: that a payload has
-- the keys which the handler of its event reads. `none` is a panic.
use cdm_center.Prelude.{String, Bool, true, false, Option, none, some, if◌then◌else◌, String-Eq}
use cdm_center.Notification.{EventType, Subject, subject, is_deletion}
use cdm_center.Notification.Payload.{
  Values, Fields, get, as_object, as_array, has_text, text_at, object_at,
}

-- The keys at the top of a payload, the second only for a deletion.
unfoldable pub has_keys : String → Bool → String → Fields → Bool
unfolding text_at
has_keys id deletion tenant payload =
    if has_text (text_at id payload)
    then (if deletion then has_text (text_at tenant payload) else true)
    else false

-- The same inside an object of the payload. The assertion that finds the object has no `ok`.
unfoldable pub has_keys_of : String → Bool → String → Option Fields → Option Bool
unfolding has_keys
has_keys_of id deletion tenant none = none
has_keys_of id deletion tenant (some o) = some (has_keys id deletion tenant o)

unfoldable pub has_keys_in : String → String → Bool → String → Fields → Option Bool
unfolding object_at has_keys_of
has_keys_in outer id deletion tenant payload =
    has_keys_of id deletion tenant (object_at outer payload)

-- the loop over the attachments of a volume; an entry that is no object panics
unfoldable pub have_instance : Values → Option Bool
unfolding text_at
have_instance Values.no_more = some true
have_instance (Values.item v vs) =
    let behind = have_instance vs in
    elim (as_object v) [
      | none ↦ none
      | some o ↦ if has_text (text_at "instance_uuid" o) then behind else some false
    ]

-- `if m.EventType == volumeDetached { ... }`, after the loop
unfoldable pub and_tenant : Option Bool → Bool → Fields → Option Bool
unfolding text_at
and_tenant none detached payload = none
and_tenant (some false) detached payload = some false
and_tenant (some true) detached payload =
    some (if detached then has_text (text_at "tenant_id" payload) else true)

unfoldable pub has_entries : Bool → Fields → Option Values → Option Bool
unfolding have_instance and_tenant
has_entries detached payload none = some false
has_entries detached payload (some vs) = and_tenant (have_instance vs) detached payload

unfoldable pub has_attachment_keys : Bool → Fields → Option Bool
unfolding text_at has_entries
has_attachment_keys detached payload =
    if has_text (text_at "volume_id" payload)
    then has_entries detached payload (as_array (get "volume_attachment" payload))
    else some false

unfoldable pub has_port_keys : Bool → Option Fields → Option Bool
unfolding text_at has_keys
has_port_keys deletion none = none
has_port_keys deletion (some o) = some (
    if has_text (text_at "device_owner" o)
    then has_keys "device_id" deletion "tenant_id" o
    else false)

-- the case of a subject, for a deletion or another event
unfoldable pub has_subject_keys : Subject → Bool → Fields → Option Bool
unfolding has_keys has_keys_in has_attachment_keys has_port_keys object_at
has_subject_keys Subject.project deletion payload = some (has_keys "resource_info" false "" payload)
has_subject_keys Subject.role_assignment deletion payload =
    some (has_keys "project" false "" payload)
has_subject_keys Subject.instance_ deletion payload =
    some (has_keys "instance_id" deletion "tenant_id" payload)
has_subject_keys Subject.volume deletion payload =
    some (has_keys "volume_id" deletion "tenant_id" payload)
has_subject_keys Subject.volume_attachment deletion payload = has_attachment_keys deletion payload
has_subject_keys Subject.volume_snapshot deletion payload =
    some (has_keys "snapshot_id" deletion "tenant_id" payload)
has_subject_keys Subject.volume_type deletion payload =
    has_keys_in "volume_types" "id" false "" payload
has_subject_keys Subject.volume_type_extra_specs deletion payload =
    some (has_keys "type_id" false "" payload)
has_subject_keys Subject.network deletion payload =
    has_keys_in "network" "id" deletion "tenant_id" payload
has_subject_keys Subject.subnet deletion payload =
    has_keys_in "subnet" "id" deletion "tenant_id" payload
has_subject_keys Subject.security_group deletion payload =
    has_keys_in "security_group" "id" deletion "tenant_id" payload
has_subject_keys Subject.security_group_rule deletion payload =
    has_keys_in "security_group_rule" "id" deletion "tenant_id" payload
has_subject_keys Subject.router deletion payload =
    has_keys_in "router" "id" deletion "tenant_id" payload
has_subject_keys Subject.router_interface deletion payload =
    has_keys_in "router_interface" "id" deletion "tenant_id" payload
has_subject_keys Subject.floating_ip deletion payload =
    has_keys_in "floatingip" "id" deletion "tenant_id" payload
has_subject_keys Subject.port deletion payload = has_port_keys deletion (object_at "port" payload)
has_subject_keys Subject.keypair deletion payload = some (has_keys "key_name" false "" payload)
has_subject_keys _ deletion payload = some true

unfoldable pub is_existed_key : EventType → Fields → Option Bool
unfolding has_subject_keys
is_existed_key e payload = has_subject_keys (subject e) (is_deletion e) payload
