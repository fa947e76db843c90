-- ===== src/Notification/Reserved/Elsewhere.antt =====
-- For which cluster the handler of cluster-manager/client/openstack/notification/notification.go
-- reserves.
use cdm_center.Prelude.{
  ℕ, String, Bool, true, false, Option, none, some, List, [], ◌∷◌, ◌==◌, ◌≡◌, ◌≢◌, refl, ◌∙◌,
  String-Eq, ℕ-Eq, arith, nat_eq_iff, Option-cases, inl, inr,
}
use cdm_center.Prelude.Lists.{All}
use cdm_center.Errors.{Error}
use cdm_center.Cluster.Store.{Result}
use cdm_center.Sync.Resource.{Resource}
use cdm_center.Sync.Reserve.{Reservations, reserve_cluster}
use cdm_center.Sync.Reserve.Entry.{reserved, reserved-reserve_cluster}
use cdm_center.Notification.{Subject, subject, is_deletion}
use cdm_center.Notification.Payload.{Values, Fields, get, as_object, as_array, text_at, object_at}
use cdm_center.Notification.Keys.{is_existed_key}
use cdm_center.Notification.Calls.{
  Call, Handled, World, after, reserve_one, reserve_top, reserve_in,
}
use cdm_center.Notification.Cases.{
  instance_calls, reserve_attachments, attach, detach, reserve_detached, reserve_attachment,
  reserve_found, reserve_behind, reserve_floating_ip_of, reserve_floating_ip, owner_resource,
  reserve_owner, reserve_port_of, reserve_port, get_instance_from_floating_ip,
}
use cdm_center.Notification.Handler.{
  Decoder, Message, guarded, reserve_subject, handle_message, handle_text, handle_body,
  handle_event, reserve_calls, is_floating_ip_update,
}

-- All calls of `Reserve` are for one cluster.
abbrev AreFor : ℕ → List Call → Type 0
AreFor cid cs = All (λ (k : Call). k.cluster_id ≡ cid) cs

one-AreFor :
    (cid : ℕ) (r : Resource) (deletion : Bool) (u t : Option String)
    → AreFor cid (reserve_one cid r deletion u t).calls
unfolding reserve_one
one-AreFor cid r deletion none t = tt
one-AreFor cid r false (some u) t = (refl, tt)
one-AreFor cid r true (some u) none = tt
one-AreFor cid r true (some u) (some t) = (refl, tt)

top-AreFor :
    (cid : ℕ) (r : Resource) (id : String) (deletion : Bool) (p : Fields)
    → AreFor cid (reserve_top cid r id deletion p).calls
unfolding reserve_top
top-AreFor cid r id deletion p = one-AreFor cid r deletion (text_at id p) (text_at "tenant_id" p)

in-AreFor :
    (cid : ℕ) (r : Resource) (deletion : Bool) (o : Option Fields)
    → AreFor cid (reserve_in cid r deletion o).calls
unfolding reserve_in
in-AreFor cid r deletion none = tt
in-AreFor cid r deletion (some o) =
    one-AreFor cid r deletion (text_at "id" o) (text_at "tenant_id" o)

attachments-AreFor : (cid : ℕ) (vs : Values) → AreFor cid (reserve_attachments cid vs).calls
unfolding reserve_attachments after
attachments-AreFor cid Values.no_more = tt
attachments-AreFor cid (Values.item v vs) =
    let rest = attachments-AreFor cid vs in
    elim (Option-cases (as_object v)) [
      | inl e ↦ rw (reserve_attachments, e) tt
      | inr (o, e) ↦ elim (Option-cases (text_at "instance_uuid" o)) [
        | inl n ↦ rw (reserve_attachments, e, n) tt
        | inr (i, n) ↦ rw (reserve_attachments, e, n) (refl, rest)
      ]
    ]

attach-AreFor : (cid : ℕ) (o : Option Values) → AreFor cid (attach cid o).calls
unfolding attach
attach-AreFor cid none = tt
attach-AreFor cid (some vs) = attachments-AreFor cid vs

instances-AreFor : (cid : ℕ) (us : List String) → AreFor cid (instance_calls cid us)
instances-AreFor cid [] = tt
instances-AreFor cid (u ∷ us) = (refl, instances-AreFor cid us)

detach-AreFor : (cid : ℕ) (r : Result (List String) Error) → AreFor cid (detach cid r).calls
unfolding detach
detach-AreFor cid (Result.error e) = tt
detach-AreFor cid (Result.ok us) = instances-AreFor cid us

attachment-AreFor :
    (w : World) (detached : Bool) (p : Fields) (u : Option String)
    → AreFor w.cluster_id (reserve_attachment w detached p u).calls
unfolding reserve_attachment reserve_detached after
attachment-AreFor w detached p none = tt
attachment-AreFor w false p (some u) =
    (refl, attach-AreFor w.cluster_id (as_array (get "volume_attachment" p)))
attachment-AreFor w true p (some u) = elim (Option-cases (text_at "tenant_id" p)) [
  | inl e ↦ rw e tt
  | inr (t, e) ↦ rw e (refl, detach-AreFor w.cluster_id (w.get_instances_from_volume u))
]

behind-AreFor :
    (cid : ℕ) (f : Option (Result (Option String) Error)) → AreFor cid (reserve_behind cid f).calls
unfolding reserve_behind reserve_found
behind-AreFor cid none = tt
behind-AreFor cid (some (Result.error e)) = tt
behind-AreFor cid (some (Result.ok none)) = tt
behind-AreFor cid (some (Result.ok (some i))) = (refl, tt)

floating_ip_of-AreFor :
    (w : World) (deletion update : Bool) (o : Fields) (u : Option String)
    → AreFor w.cluster_id (reserve_floating_ip_of w deletion update o u).calls
unfolding reserve_floating_ip_of after
floating_ip_of-AreFor w deletion update o none = tt
floating_ip_of-AreFor w true update o (some u) =
    one-AreFor w.cluster_id Resource.floating_ip true (some u) (text_at "tenant_id" o)
floating_ip_of-AreFor w false false o (some u) = (refl, tt)
floating_ip_of-AreFor w false true o (some u) =
    (refl, behind-AreFor w.cluster_id (get_instance_from_floating_ip w o))

floating_ip-AreFor :
    (w : World) (deletion update : Bool) (o : Option Fields)
    → AreFor w.cluster_id (reserve_floating_ip w deletion update o).calls
unfolding reserve_floating_ip
floating_ip-AreFor w deletion update none = tt
floating_ip-AreFor w deletion update (some o) =
    floating_ip_of-AreFor w deletion update o (text_at "id" o)

owner-AreFor :
    (cid : ℕ) (deletion : Bool) (r : Option Resource) (u : String) (t : Option String)
    → AreFor cid (reserve_owner cid deletion r u t).calls
unfolding reserve_owner
owner-AreFor cid deletion none u t = tt
owner-AreFor cid deletion (some r) u t = one-AreFor cid r deletion (some u) t

port_of-AreFor :
    (cid : ℕ) (deletion : Bool) (u owner t : Option String)
    → AreFor cid (reserve_port_of cid deletion u owner t).calls
unfolding reserve_port_of
port_of-AreFor cid deletion none owner t = tt
port_of-AreFor cid deletion (some u) none t = tt
port_of-AreFor cid deletion (some u) (some owner) t =
    owner-AreFor cid deletion (owner_resource owner) u t

port-AreFor :
    (cid : ℕ) (deletion : Bool) (o : Option Fields) → AreFor cid (reserve_port cid deletion o).calls
unfolding reserve_port
port-AreFor cid deletion none = tt
port-AreFor cid deletion (some o) =
    port_of-AreFor cid deletion (text_at "device_id" o) (text_at "device_owner" o)
      (text_at "tenant_id" o)

subject-AreFor :
    (w : World) (s : Subject) (deletion update : Bool) (p : Fields)
    → AreFor w.cluster_id (reserve_subject w s deletion update p).calls
unfolding reserve_subject
subject-AreFor w Subject.volume_attachment deletion update p =
    attachment-AreFor w deletion p (text_at "volume_id" p)
subject-AreFor w Subject.volume_type_project_access deletion update p = tt
subject-AreFor w Subject.floating_ip deletion update p =
    floating_ip-AreFor w deletion update (object_at "floatingip" p)
subject-AreFor w Subject.port deletion update p =
    port-AreFor w.cluster_id deletion (object_at "port" p)
subject-AreFor w Subject.aggregate deletion update p = (refl, tt)
subject-AreFor w Subject.aggregate_host deletion update p = (refl, tt)
subject-AreFor w Subject.aggregate_deletion deletion update p = (refl, (refl, tt))
subject-AreFor w Subject.unhandled deletion update p = tt
subject-AreFor w Subject.project deletion update p = top-AreFor w.cluster_id _ _ _ p
subject-AreFor w Subject.role_assignment deletion update p = top-AreFor w.cluster_id _ _ _ p
subject-AreFor w Subject.instance_ deletion update p = top-AreFor w.cluster_id _ _ _ p
subject-AreFor w Subject.volume deletion update p = top-AreFor w.cluster_id _ _ _ p
subject-AreFor w Subject.volume_snapshot deletion update p = top-AreFor w.cluster_id _ _ _ p
subject-AreFor w Subject.volume_type_extra_specs deletion update p = top-AreFor w.cluster_id _ _ _ p
subject-AreFor w Subject.keypair deletion update p = top-AreFor w.cluster_id _ _ _ p
subject-AreFor w Subject.volume_type deletion update p =
    in-AreFor w.cluster_id Resource.storage false (object_at "volume_types" p)
subject-AreFor w Subject.network deletion update p =
    in-AreFor w.cluster_id Resource.network deletion (object_at "network" p)
subject-AreFor w Subject.subnet deletion update p =
    in-AreFor w.cluster_id Resource.subnet deletion (object_at "subnet" p)
subject-AreFor w Subject.security_group deletion update p =
    in-AreFor w.cluster_id Resource.security_group deletion (object_at "security_group" p)
subject-AreFor w Subject.security_group_rule deletion update p =
    in-AreFor w.cluster_id Resource.security_group_rule deletion (object_at "security_group_rule" p)
subject-AreFor w Subject.router deletion update p =
    in-AreFor w.cluster_id Resource.router deletion (object_at "router" p)
subject-AreFor w Subject.router_interface deletion update p =
    in-AreFor w.cluster_id Resource.router deletion (object_at "router_interface" p)

guarded-AreFor :
    (cid : ℕ) (o : Option Bool) (h : Handled) → AreFor cid h.calls → AreFor cid (guarded o h).calls
unfolding guarded
guarded-AreFor cid none h a = tt
guarded-AreFor cid (some true) h a = a
guarded-AreFor cid (some false) h a = tt

text-AreFor : (w : World) (r : Result Message Error) → AreFor w.cluster_id (handle_text w r).calls
unfolding handle_text handle_message
text-AreFor w (Result.error e) = tt
text-AreFor w (Result.ok m) =
    guarded-AreFor w.cluster_id (is_existed_key m.event_type m.payload) _ (
      subject-AreFor w (subject m.event_type) (is_deletion m.event_type)
        (is_floating_ip_update m.event_type) m.payload)

body-AreFor :
    (w : World) (d : Decoder) (r : Result Fields Error)
    → AreFor w.cluster_id (handle_body w d r).calls
unfolding handle_body
body-AreFor w d (Result.error e) = tt
body-AreFor w d (Result.ok o) = elim (Option-cases (text_at "oslo.message" o)) [
  | inl e ↦ rw (handle_body, e) tt
  | inr (t, e) ↦ rw (handle_body, e) (text-AreFor w (d.decode_message t))
]

reserved-calls_elsewhere :
    (cid c : ℕ) (cs : List Call) (s : Resource) (v : String) (g : Reservations)
    → AreFor cid cs
    → cid ≢ c
    → reserved (reserve_calls cs g) c s v ≡ reserved g c s v
unfolding reserve_calls
reserved-calls_elsewhere cid c [] s v g a n = refl
reserved-calls_elsewhere cid c (k ∷ cs) s v g a n =
    let next = reserve_cluster k.cluster_id k.resource k.uuid k.options g in
    let here = reserved-reserve_cluster k.cluster_id c k.resource s k.uuid v k.options g in
    let apart : (k.cluster_id == c) ≡ false = rw a.0 (ground (arith, nat_eq_iff cid c, n)) in
    reserved-calls_elsewhere cid c cs s v next a.1 n ∙ (here ∙ rw apart refl)

-- Every call of Reserve that an event leads to is for the handler's own cluster: the reservations of
-- every other cluster are as before, whatever the event holds and however the handler ends.
pub reserved-handle_event_elsewhere :
    (w : World) (d : Decoder) (c : ℕ) (body : String) (s : Resource) (v : String) (g : Reservations)
    → w.cluster_id ≢ c
    → reserved ((handle_event w d body g).0) c s v ≡ reserved g c s v
unfolding handle_event
reserved-handle_event_elsewhere w d c body s v g n =
    reserved-calls_elsewhere w.cluster_id c _ s v g (body-AreFor w d (d.decode_body body)) n
