-- ===== src/Notification/Calls.antt =====
-- What a case of `HandleEvent` of cluster-manager/client/openstack/notification/notification.go does:
-- its calls of `sync.Reserve` and its end, and the cases that reserve one resource.
use cdm_center.Prelude.{
  ℕ, String, Bool, true, false, Option, none, some, List, [], ◌∷◌, ◌++◌, String-Eq,
}
use cdm_center.Errors.{Error}
use cdm_center.Cluster.Store.{Result}
use cdm_center.Sync.Resource.{Resource, Options, with_tenant_uuid}
use cdm_center.Notification.Payload.{Fields, text_at}

-- The calls of `sync.Reserve` that an event makes, in order, and how the handler ends. Nothing in
-- between reads the reservations.
pub record Call : Type 0 where
  pub cluster_id : ℕ
  pub resource : Resource
  pub uuid : String
  pub options : List (Options → Options)

pub data End : Type 0 where
  returned : Option Error → End
  panicked : End

pub record Handled : Type 0 where
  pub calls : List Call
  pub ends : End

abbrev pub call : ℕ → Resource → String → Call
call cid r u = record { cluster_id = cid; resource = r; uuid = u; options = [] }

abbrev pub call_for : ℕ → String → Resource → String → Call
call_for cid t r u = record {
  cluster_id = cid;
  resource = r;
  uuid = u;
  options = with_tenant_uuid t ∷ [];
}

abbrev pub with_calls : List Call → End → Handled
with_calls cs e = record { calls = cs; ends = e }

-- what a port of the cluster tells of itself
pub record Port : Type 0 where
  pub device_owner : String
  pub device_id : String

-- The handler's cluster by its id, `ns.cluster.ID`; its database and its client: the uuids of the instances of a volume; the error
-- that reading the cluster, making its client or connecting it brings, if any; a port; the
-- instance of a floating IP, if there is one.
pub record World : Type 0 where
  pub cluster_id : ℕ
  pub get_instances_from_volume : String → Result (List String) Error
  pub connect : Option Error
  pub show_port_details : String → Result Port Error
  pub floating_ip_instance : String → Result (Option String) Error

-- One resource: with its tenant where the event is its deletion. A text that is not there panics.
unfoldable pub reserve_one : ℕ → Resource → Bool → Option String → Option String → Handled
reserve_one cid r deletion none tenant = with_calls [] End.panicked
reserve_one cid r false (some uuid) tenant = with_calls (call cid r uuid ∷ []) (End.returned none)
reserve_one cid r true (some uuid) none = with_calls [] End.panicked
reserve_one cid r true (some uuid) (some t) =
    with_calls (call_for cid t r uuid ∷ []) (End.returned none)

-- where the uuid is a key at the top of the payload
unfoldable pub reserve_top : ℕ → Resource → String → Bool → Fields → Handled
unfolding reserve_one text_at
reserve_top cid r id deletion payload =
    reserve_one cid r deletion (text_at id payload) (text_at "tenant_id" payload)

-- where it is a key of an object of the payload
unfoldable pub reserve_in : ℕ → Resource → Bool → Option Fields → Handled
unfolding reserve_one text_at
reserve_in cid r deletion none = with_calls [] End.panicked
reserve_in cid r deletion (some o) =
    reserve_one cid r deletion (text_at "id" o) (text_at "tenant_id" o)

-- `h` before what another handler does
unfoldable pub after : List Call → Handled → Handled
after cs h = with_calls (cs ++ h.calls) h.ends
