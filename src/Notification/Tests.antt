-- ===== src/Notification/Tests.antt =====
-- Events on concrete payloads.
use cdm_center.Prelude.{true, false, Option, none, some, ◌≡◌, refl, arith}
use cdm_center.Errors.{Error}
use cdm_center.Cluster.Store.{Result}
use cdm_center.Sync.Resource.{Resource}
use cdm_center.Sync.Reserve.Entry.{reserved}
use cdm_center.Notification.{EventType, subject}
use cdm_center.Notification.Payload.{Value, Fields, get, text_at, object_at}
use cdm_center.Notification.Keys.{is_existed_key, has_subject_keys, has_keys_in, has_keys_of}
use cdm_center.Notification.Calls.{End, World}
use cdm_center.Notification.Handler.{Decoder, guarded, handle_message, handle_event, reserve_calls}
use cdm_center.Notification.Returns.{handle_message-returns}
use cdm_center.Notification.Returns.Objects.{has_objects}
use cdm_center.Notification.Reserved.{reserved-handle_message}
use cdm_center.Notification.Reserved.Elsewhere.{reserved-handle_event_elsewhere}
use cdm_center.Notification.Reserved.One.{resource_of, text_of, object_of, uuid_key}

abbrev world : World
world = record {
  cluster_id = 7;
  get_instances_from_volume = λ u. Result.error (Error.other "database");
  connect = some Error.unusable_database;
  show_port_details = λ p. Result.error (Error.other "port");
  floating_ip_instance = λ u. Result.ok none;
}

abbrev network_payload : Fields
network_payload =
    Fields.field "network"
      (Value.object (
        Fields.field "id" (Value.text "n1")
          (Fields.field "tenant_id" (Value.text "t1") Fields.no_fields)))
      Fields.no_fields

abbrev decoder : Decoder
decoder = record {
  decode_body = λ b. Result.ok (Fields.field "oslo.message" (Value.text b) Fields.no_fields);
  decode_message =
      λ t. Result.ok (record { event_type = EventType.network_deleted; payload = network_payload });
}

network_has_objects : has_objects (subject EventType.network_deleted) false network_payload ≡ true
unfolding has_objects object_at get
network_has_objects = refl

handle_message-returns_example :
    (err : Option Error) × ((handle_message world EventType.network_deleted network_payload).ends
      ≡ End.returned err)
handle_message-returns_example =
    handle_message-returns world EventType.network_deleted network_payload network_has_objects

names_network :
    text_of
      (uuid_key (subject EventType.network_deleted))
      (object_of (subject EventType.network_deleted) network_payload)
    ≡ some "n1"
unfolding text_of uuid_key object_of object_at text_at get
names_network = refl

names_tenant :
    text_of "tenant_id" (object_of (subject EventType.network_deleted) network_payload) ≡ some "t1"
unfolding text_of object_of object_at text_at get
names_tenant = refl

is_network : resource_of (subject EventType.network_deleted) ≡ some Resource.network
unfolding resource_of
is_network = refl

reserved-handle_message_example :
    ((handle_message world EventType.network_deleted network_payload).ends ≡ End.returned none)
    × (reserved
          (reserve_calls
            (handle_message world EventType.network_deleted network_payload).calls
            none)
          7
          Resource.network
          "n1"
        ≡ some "t1")
reserved-handle_message_example =
    reserved-handle_message world EventType.network_deleted network_payload Resource.network "n1"
      "t1" none is_network names_network refl (λ d. names_tenant) refl

reserved-handle_event_elsewhere_example :
    reserved ((handle_event world decoder "body" none).0) 8 Resource.network "n1"
    ≡ reserved none 8 Resource.network "n1"
reserved-handle_event_elsewhere_example =
    reserved-handle_event_elsewhere world decoder 8 "body" Resource.network "n1" none
      (λ e. ground (arith, e))

-- A network event without its object: the assertion of `isExistedKey` panics.
network_panics :
    (handle_message world EventType.network_created Fields.no_fields).ends ≡ End.panicked
unfolding handle_message guarded is_existed_key has_subject_keys has_keys_in has_keys_of object_at
    get
network_panics = refl
