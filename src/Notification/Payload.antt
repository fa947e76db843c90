-- ===== src/Notification/Payload.antt =====
-- A decoded JSON value, as `map[string]interface{}` holds it, and the type assertions that
-- cluster-manager/client/openstack/notification makes on it.
use cdm_center.Prelude.{
  String, Bool, false, not, Option, none, some, ◌==◌, if◌then◌else◌, String-Eq,
}

mutual
  pub data Value : Type 0 where
    null : Value
    text : String → Value
    -- a number or a Boolean
    scalar : Value
    array : Values → Value
    object : Fields → Value

  pub data Values : Type 0 where
    no_more : Values
    item : Value → Values → Values

  pub data Fields : Type 0 where
    no_fields : Fields
    field : String → Value → Fields → Fields

-- `m[key]`; the value of a missing key is nil
unfoldable pub get : String → Fields → Value
get key no_fields = Value.null
get key (field k v rest) = let behind = get key rest in if k == key then v else behind

-- `v.(string)`, `v.(map[string]interface{})` and `v.([]interface{})`; `none` is a panic, or `!ok`
abbrev pub as_text : Value → Option String
as_text (Value.text s) = some s
as_text _ = none

abbrev pub as_object : Value → Option Fields
as_object (Value.object o) = some o
as_object _ = none

abbrev pub as_array : Value → Option Values
as_array (Value.array vs) = some vs
as_array _ = none

-- `value, ok := v.(string)` with the test `!ok || value == ""`, denied
abbrev pub has_text : Option String → Bool
has_text none = false
has_text (some s) = not (s == "")

-- `payload[key].(string)`
unfoldable pub text_at : String → Fields → Option String
unfolding get
text_at key payload = as_text (get key payload)

-- `payload[outer].(map[string]interface{})`
unfoldable pub object_at : String → Fields → Option Fields
unfolding get
object_at key payload = as_object (get key payload)
