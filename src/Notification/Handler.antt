-- ===== src/Notification/Handler.antt =====
-- `HandleEvent` of cluster-manager/client/openstack/notification/notification.go: the cases put
-- together, the decoding before them, and the reservations they make.
use cdm_center.Prelude.{Option, String, Bool, true, false, none, some, List, [], ◌∷◌, String-Eq}
use cdm_center.Errors.{Error}
use cdm_center.Cluster.Store.{Result}
use cdm_center.Sync.Resource.{Resource}
use cdm_center.Sync.Reserve.{Reservations, reserve_cluster}
use cdm_center.Notification.{EventType, Subject, subject, is_deletion}
use cdm_center.Notification.Payload.{Fields, text_at, object_at}
use cdm_center.Notification.Keys.{is_existed_key}
use cdm_center.Notification.Calls.{
  Call, End, Handled, World, call, with_calls, reserve_one, reserve_top, reserve_in,
}
use cdm_center.Notification.Cases.{reserve_attachment, reserve_floating_ip, reserve_port}

-- `m.EventType == floatingIPUpdated`
abbrev pub is_floating_ip_update : EventType → Bool
is_floating_ip_update EventType.floating_ip_updated = true
is_floating_ip_update _ = false

-- the body of a case, behind its `if !isExistedKey(m) { return nil }`
unfoldable pub reserve_subject : World → Subject → Bool → Bool → Fields → Handled
unfolding text_at object_at reserve_one reserve_in reserve_attachment reserve_floating_ip
    reserve_port
reserve_subject w Subject.project deletion update payload =
    reserve_top w.cluster_id Resource.tenant "resource_info" false payload
reserve_subject w Subject.role_assignment deletion update payload =
    reserve_top w.cluster_id Resource.tenant "project" false payload
reserve_subject w Subject.instance_ deletion update payload =
    reserve_top w.cluster_id Resource.instance_ "instance_id" deletion payload
reserve_subject w Subject.volume deletion update payload =
    reserve_top w.cluster_id Resource.volume "volume_id" deletion payload
reserve_subject w Subject.volume_attachment deletion update payload =
    reserve_attachment w deletion payload (text_at "volume_id" payload)
reserve_subject w Subject.volume_snapshot deletion update payload =
    reserve_top w.cluster_id Resource.volume_snapshot "snapshot_id" deletion payload
reserve_subject w Subject.volume_type deletion update payload =
    reserve_in w.cluster_id Resource.storage false (object_at "volume_types" payload)
reserve_subject w Subject.volume_type_project_access deletion update payload =
    with_calls [] (End.returned none)
reserve_subject w Subject.volume_type_extra_specs deletion update payload =
    reserve_top w.cluster_id Resource.storage "type_id" false payload
reserve_subject w Subject.network deletion update payload =
    reserve_in w.cluster_id Resource.network deletion (object_at "network" payload)
reserve_subject w Subject.subnet deletion update payload =
    reserve_in w.cluster_id Resource.subnet deletion (object_at "subnet" payload)
reserve_subject w Subject.security_group deletion update payload =
    reserve_in w.cluster_id Resource.security_group deletion (object_at "security_group" payload)
reserve_subject w Subject.security_group_rule deletion update payload =
    reserve_in w.cluster_id Resource.security_group_rule deletion
      (object_at "security_group_rule" payload)
reserve_subject w Subject.router deletion update payload =
    reserve_in w.cluster_id Resource.router deletion (object_at "router" payload)
reserve_subject w Subject.router_interface deletion update payload =
    reserve_in w.cluster_id Resource.router deletion (object_at "router_interface" payload)
reserve_subject w Subject.floating_ip deletion update payload =
    reserve_floating_ip w deletion update (object_at "floatingip" payload)
reserve_subject w Subject.port deletion update payload =
    reserve_port w.cluster_id deletion (object_at "port" payload)
reserve_subject w Subject.keypair deletion update payload =
    reserve_top w.cluster_id Resource.keypair "key_name" false payload
reserve_subject w Subject.aggregate deletion update payload =
    with_calls (call w.cluster_id Resource.availability_zone_list "" ∷ []) (End.returned none)
reserve_subject w Subject.aggregate_host deletion update payload =
    with_calls (call w.cluster_id Resource.hypervisor_list "" ∷ []) (End.returned none)
reserve_subject w Subject.aggregate_deletion deletion update payload =
    with_calls
      (call w.cluster_id Resource.hypervisor_list ""
        ∷ call w.cluster_id Resource.availability_zone_list ""
        ∷ [])
      (End.returned none)
reserve_subject w Subject.unhandled deletion update payload = with_calls [] (End.returned none)

-- `if !isExistedKey(m) { return nil }` before the body of a case
unfoldable pub guarded : Option Bool → Handled → Handled
guarded none h = with_calls [] End.panicked
guarded (some true) h = h
guarded (some false) h = with_calls [] (End.returned none)

-- The switch of `HandleEvent` on a message that has been decoded. The cases without a check of the
-- keys are those for which `isExistedKey` has no case and answers true.
unfoldable pub handle_message : World → EventType → Fields → Handled
unfolding is_existed_key reserve_subject guarded
handle_message w e payload =
    guarded (is_existed_key e payload)
      (reserve_subject w (subject e) (is_deletion e) (is_floating_ip_update e) payload)

-- `json.Unmarshal` of a message's body and of the text inside it; what the text holds
pub record Message : Type 0 where
  pub event_type : EventType
  pub payload : Fields

pub record Decoder : Type 0 where
  pub decode_body : String → Result Fields Error
  pub decode_message : String → Result Message Error

unfoldable pub handle_text : World → Result Message Error → Handled
unfolding handle_message
handle_text w (Result.error e) = with_calls [] (End.returned (some e))
handle_text w (Result.ok m) = handle_message w m.event_type m.payload

unfoldable pub handle_body : World → Decoder → Result Fields Error → Handled
unfolding text_at handle_text
handle_body w d (Result.error e) = with_calls [] (End.returned (some e))
handle_body w d (Result.ok o) = elim (text_at "oslo.message" o) [
  | none ↦ with_calls [] End.panicked
  | some t ↦ handle_text w (d.decode_message t)
]

-- the calls of `sync.Reserve`, one after another
unfoldable pub reserve_calls : List Call → Reservations → Reservations
unfolding reserve_cluster
reserve_calls [] g = g
reserve_calls (c ∷ cs) g =
    reserve_calls cs (reserve_cluster c.cluster_id c.resource c.uuid c.options g)

-- `HandleEvent`
unfoldable pub handle_event : World → Decoder → String → Reservations → Reservations × End
unfolding handle_body reserve_calls
handle_event w d body g =
    let h = handle_body w d (d.decode_body body) in (reserve_calls h.calls g, h.ends)
