-- ===== src/Notification/Cases.antt =====
-- The cases of `HandleEvent` of cluster-manager/client/openstack/notification/notification.go that
-- reserve more than one resource or choose it, with the two functions of util.go there.
use cdm_center.Prelude.{
  ℕ, String, Bool, true, false, Option, none, some, List, [], ◌∷◌, map, ◌==◌, if◌then◌else◌,
  String-Eq,
}
use cdm_center.Errors.{Error}
use cdm_center.Cluster.Store.{Result}
use cdm_center.Sync.Resource.{Resource}
use cdm_center.Notification.Payload.{
  Value, Values, Fields, get, as_text, as_object, as_array, text_at,
}
use cdm_center.Notification.Calls.{
  Call, End, Handled, Port, World, call, call_for, with_calls, after, reserve_one,
}

abbrev pub instance_calls : ℕ → List String → List Call
instance_calls cid us = map (call cid Resource.instance_) us

-- the loop over the attachments of `volumeAttached`
unfoldable pub reserve_attachments : ℕ → Values → Handled
unfolding text_at after
reserve_attachments cid Values.no_more = with_calls [] (End.returned none)
reserve_attachments cid (Values.item v vs) =
    let behind = reserve_attachments cid vs in
    elim (as_object v) [
      | none ↦ with_calls [] End.panicked
      | some o ↦ elim (text_at "instance_uuid" o) [
        | none ↦ with_calls [] End.panicked
        | some i ↦ after (call cid Resource.instance_ i ∷ []) behind
      ]
    ]

unfoldable pub attach : ℕ → Option Values → Handled
unfolding reserve_attachments
attach cid none = with_calls [] End.panicked
attach cid (some vs) = reserve_attachments cid vs

unfoldable pub detach : ℕ → Result (List String) Error → Handled
detach cid (Result.error e) = with_calls [] (End.returned (some e))
detach cid (Result.ok us) = with_calls (instance_calls cid us) (End.returned none)

unfoldable pub reserve_detached : World → String → Option String → Handled
unfolding after detach
reserve_detached w uuid none = with_calls [] End.panicked
reserve_detached w uuid (some t) =
    after (call_for w.cluster_id t Resource.volume uuid ∷ [])
      (detach w.cluster_id (w.get_instances_from_volume uuid))

unfoldable pub reserve_attachment : World → Bool → Fields → Option String → Handled
unfolding get text_at after attach reserve_detached
reserve_attachment w detached payload none = with_calls [] End.panicked
reserve_attachment w false payload (some uuid) =
    after (call w.cluster_id Resource.volume uuid ∷ [])
      (attach w.cluster_id (as_array (get "volume_attachment" payload)))
reserve_attachment w true payload (some uuid) =
    reserve_detached w uuid (text_at "tenant_id" payload)

-- what is reserved for the instance that `getInstanceFromFloatingIP` finds
unfoldable pub reserve_found : ℕ → Result (Option String) Error → Handled
reserve_found cid (Result.error e) = with_calls [] (End.returned (some e))
reserve_found cid (Result.ok none) = with_calls [] (End.returned none)
reserve_found cid (Result.ok (some i)) =
    with_calls (call cid Resource.instance_ i ∷ []) (End.returned none)

-- the instance behind a port
unfoldable pub port_instance : Result Port Error → Result (Option String) Error
port_instance (Result.error e) = Result.error e
port_instance (Result.ok p) =
    if p.device_owner == "compute:nova" then Result.ok (some p.device_id) else Result.ok none

-- the port whose id is given, once the client is connected
unfoldable pub show_port :
    World → Option Error → Option String → Option (Result (Option String) Error)
unfolding port_instance
show_port w (some e) id = some (Result.error e)
show_port w none none = none
show_port w none (some p) = some (port_instance (w.show_port_details p))

-- `getInstanceFromFloatingIP`, by the `port_id` and the `id` of the floating IP; `none` is a panic
unfoldable pub find_instance : World → Value → Option String → Option (Result (Option String) Error)
unfolding show_port
find_instance w Value.null none = none
find_instance w Value.null (some u) = some (w.floating_ip_instance u)
find_instance w port_id id = show_port w w.connect (as_text port_id)

unfoldable pub get_instance_from_floating_ip :
    World → Fields → Option (Result (Option String) Error)
unfolding get text_at find_instance
get_instance_from_floating_ip w o = find_instance w (get "port_id" o) (text_at "id" o)

-- the last part of the case of floating IPs, for an update
unfoldable pub reserve_behind : ℕ → Option (Result (Option String) Error) → Handled
unfolding reserve_found
reserve_behind cid none = with_calls [] End.panicked
reserve_behind cid (some found) = reserve_found cid found

-- by the `id` of the floating IP
unfoldable pub reserve_floating_ip_of : World → Bool → Bool → Fields → Option String → Handled
unfolding text_at reserve_one after reserve_behind get_instance_from_floating_ip
reserve_floating_ip_of w deletion update o none = with_calls [] End.panicked
reserve_floating_ip_of w true update o (some uuid) =
    reserve_one w.cluster_id Resource.floating_ip true (some uuid) (text_at "tenant_id" o)
reserve_floating_ip_of w false false o (some uuid) =
    with_calls (call w.cluster_id Resource.floating_ip uuid ∷ []) (End.returned none)
reserve_floating_ip_of w false true o (some uuid) =
    after (call w.cluster_id Resource.floating_ip uuid ∷ [])
      (reserve_behind w.cluster_id (get_instance_from_floating_ip w o))

unfoldable pub reserve_floating_ip : World → Bool → Bool → Option Fields → Handled
unfolding text_at reserve_floating_ip_of
reserve_floating_ip w deletion update none = with_calls [] End.panicked
reserve_floating_ip w deletion update (some o) =
    reserve_floating_ip_of w deletion update o (text_at "id" o)

-- the resource that owns a port, if it is one that is synchronized
unfoldable pub owner_resource : String → Option Resource
owner_resource owner =
    if owner == "compute:nova"
    then some Resource.instance_
    else if owner == "network:router_interface"
    then some Resource.router
    else none

unfoldable pub reserve_owner : ℕ → Bool → Option Resource → String → Option String → Handled
unfolding reserve_one
reserve_owner cid deletion none uuid tenant = with_calls [] (End.returned none)
reserve_owner cid deletion (some r) uuid tenant = reserve_one cid r deletion (some uuid) tenant

-- by the `device_id`, the `device_owner` and the `tenant_id` of the port
unfoldable pub reserve_port_of : ℕ → Bool → Option String → Option String → Option String → Handled
unfolding owner_resource reserve_owner
reserve_port_of cid deletion none owner tenant = with_calls [] End.panicked
reserve_port_of cid deletion (some uuid) none tenant = with_calls [] End.panicked
reserve_port_of cid deletion (some uuid) (some owner) tenant =
    reserve_owner cid deletion (owner_resource owner) uuid tenant

unfoldable pub reserve_port : ℕ → Bool → Option Fields → Handled
unfolding text_at reserve_port_of
reserve_port cid deletion none = with_calls [] End.panicked
reserve_port cid deletion (some o) =
    reserve_port_of cid deletion (text_at "device_id" o) (text_at "device_owner" o)
      (text_at "tenant_id" o)
