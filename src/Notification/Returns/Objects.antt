-- ===== src/Notification/Returns/Objects.antt =====
-- What a payload must have for the handler of
-- cluster-manager/client/openstack/notification/notification.go to return, and the cases that reserve
-- one resource.
use cdm_center.Prelude.{
  ℕ, String, Bool, true, false, ◌&&◌, Option, none, some, ◌≡◌, ◌≢◌, refl, if◌then◌else◌, String-Eq,
  arith,
}
use cdm_center.Errors.{Error}
use cdm_center.Sync.Resource.{Resource}
use cdm_center.Notification.{Subject}
use cdm_center.Notification.Payload.{
  Value, Values, Fields, get, as_object, as_array, has_text, text_at, object_at,
}
use cdm_center.Notification.Keys.{has_keys, has_keys_of, has_port_keys}
use cdm_center.Notification.Calls.{End, Handled, reserve_one, reserve_top, reserve_in}
use cdm_center.Notification.Cases.{reserve_port_of, owner_resource, reserve_owner, reserve_port}
use cdm_center.Notification.Handler.{guarded}

abbrev pub is_present : Option Fields → Bool
is_present none = false
is_present (some o) = true

abbrev pub is_object : Value → Bool
is_object v = is_present (as_object v)

unfoldable pub are_objects : Values → Bool
are_objects Values.no_more = true
are_objects (Values.item v vs) = is_object v && are_objects vs

unfoldable pub are_objects_if : Option Values → Bool
unfolding are_objects
are_objects_if none = true
are_objects_if (some vs) = are_objects vs

-- the `port_id` of a floating IP is missing or a text
abbrev pub is_port_id : Value → Bool
is_port_id Value.null = true
is_port_id (Value.text s) = true
is_port_id _ = false

unfoldable pub has_port_id : Bool → Option Fields → Bool
unfolding get
has_port_id update none = false
has_port_id false (some o) = true
has_port_id true (some o) = is_port_id (get "port_id" o)

-- The objects of a payload are where the handler looks for objects, and the port of a floating IP
-- that is updated has a text for its id.
unfoldable pub has_objects : Subject → Bool → Fields → Bool
unfolding object_at are_objects_if has_port_id get
has_objects Subject.volume_attachment update p =
    are_objects_if (as_array (get "volume_attachment" p))
has_objects Subject.volume_type update p = is_present (object_at "volume_types" p)
has_objects Subject.network update p = is_present (object_at "network" p)
has_objects Subject.subnet update p = is_present (object_at "subnet" p)
has_objects Subject.security_group update p = is_present (object_at "security_group" p)
has_objects Subject.security_group_rule update p = is_present (object_at "security_group_rule" p)
has_objects Subject.router update p = is_present (object_at "router" p)
has_objects Subject.router_interface update p = is_present (object_at "router_interface" p)
has_objects Subject.floating_ip update p = has_port_id update (object_at "floatingip" p)
has_objects Subject.port update p = is_present (object_at "port" p)
has_objects _ update p = true

abbrev pub Returns : Handled → Type 0
Returns h = (e : Option Error) × (h.ends ≡ End.returned e)

pub guarded-Returns : (b : Bool) (h : Handled) → Returns h → Returns (guarded (some b) h)
unfolding guarded
guarded-Returns true h r = r
guarded-Returns false h r = (none, refl)

guarded-refused : (b : Bool) (h : Handled) → Returns (guarded (some (if b then false else false)) h)
unfolding guarded
guarded-refused true h = (none, refl)
guarded-refused false h = (none, refl)

-- the check of the two texts of a resource, before its reservation
one-Returns :
    (cid : ℕ) (r : Resource) (deletion : Bool) (u t : Option String)
    → Returns (
        guarded
          (some (if has_text u then if deletion then has_text t else true else false))
          (reserve_one cid r deletion u t))
unfolding guarded reserve_one
one-Returns cid r deletion none t = (none, refl)
one-Returns cid r false (some u) t =
    guarded-Returns (if has_text (some u) then true else false) (reserve_one cid r false (some u) t)
      (none, refl)
one-Returns cid r true (some u) none =
    guarded-refused (has_text (some u)) (reserve_one cid r true (some u) none)
one-Returns cid r true (some u) (some t) =
    guarded-Returns (if has_text (some u) then has_text (some t) else false)
      (reserve_one cid r true (some u) (some t)) (none, refl)

pub top-Returns :
    (cid : ℕ) (r : Resource) (id : String) (deletion : Bool) (p : Fields)
    → Returns
        (guarded (some (has_keys id deletion "tenant_id" p)) (reserve_top cid r id deletion p))
unfolding has_keys reserve_top
top-Returns cid r id deletion p = one-Returns cid r deletion (text_at id p) (text_at "tenant_id" p)

pub top-Returns_always :
    (cid : ℕ) (r : Resource) (id : String) (p : Fields)
    → Returns (guarded (some (has_keys id false "" p)) (reserve_top cid r id false p))
unfolding has_keys reserve_top
top-Returns_always cid r id p = one-Returns cid r false (text_at id p) (text_at "tenant_id" p)

pub in-Returns :
    (cid : ℕ) (r : Resource) (deletion : Bool) (o : Option Fields)
    → is_present o ≡ true
    → Returns (guarded (has_keys_of "id" deletion "tenant_id" o) (reserve_in cid r deletion o))
unfolding has_keys_of has_keys reserve_in
in-Returns cid r deletion none h = absurd (ground (arith, h))
in-Returns cid r deletion (some o) h =
    one-Returns cid r deletion (text_at "id" o) (text_at "tenant_id" o)

pub type-Returns :
    (cid : ℕ) (o : Option Fields)
    → is_present o ≡ true
    → Returns (guarded (has_keys_of "id" false "" o) (reserve_in cid Resource.storage false o))
unfolding has_keys_of has_keys reserve_in
type-Returns cid none h = absurd (ground (arith, h))
type-Returns cid (some o) h =
    one-Returns cid Resource.storage false (text_at "id" o) (text_at "tenant_id" o)

-- an end with the check before it, by what the check says
pub guarded-cases :
    (k : Option Bool) (h : Handled) → k ≢ none → (k ≡ some true → Returns h) → Returns (guarded k h)
unfolding guarded
guarded-cases none h n r = absurd (n refl)
guarded-cases (some true) h n r = r refl
guarded-cases (some false) h n r = (none, refl)

pub owner-Returns :
    (cid : ℕ) (deletion : Bool) (r : Option Resource) (u : String) (t : Option String)
    → (if deletion then has_text t else true) ≡ true
    → Returns (reserve_owner cid deletion r u t)
unfolding reserve_owner reserve_one
owner-Returns cid deletion none u t h = (none, refl)
owner-Returns cid false (some r) u t h = (none, refl)
owner-Returns cid true (some r) u none h = absurd (ground (arith, h))
owner-Returns cid true (some r) u (some t) h = (none, refl)

port_of-Returns :
    (cid : ℕ) (deletion : Bool) (u owner t : Option String)
    → (if has_text owner
        then if has_text u then if deletion then has_text t else true else false
        else false)
      ≡ true
    → Returns (reserve_port_of cid deletion u owner t)
unfolding reserve_port_of
port_of-Returns cid deletion none owner t h = absurd (ground (arith, h))
port_of-Returns cid deletion (some u) none t h = absurd (ground (arith, h))
port_of-Returns cid deletion (some u) (some owner) t h =
    owner-Returns cid deletion (owner_resource owner) u t (ground (arith, h))

pub some-injective : {a b : Bool} → some a ≡ some b → a ≡ b
some-injective {a} {b} h = ground (arith, h)

pub port-Returns :
    (cid : ℕ) (deletion : Bool) (o : Option Fields)
    → is_present o ≡ true
    → Returns (guarded (has_port_keys deletion o) (reserve_port cid deletion o))
unfolding has_port_keys has_keys reserve_port
port-Returns cid deletion none h = absurd (ground (arith, h))
port-Returns cid deletion (some o) h =
    guarded-cases (has_port_keys deletion (some o)) (reserve_port cid deletion (some o))
      (λ n. ground (arith, n))
      (λ k.
        port_of-Returns cid deletion (text_at "device_id" o) (text_at "device_owner" o)
          (text_at "tenant_id" o) (some-injective k))
