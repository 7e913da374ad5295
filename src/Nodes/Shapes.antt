-- ===== src/Nodes/Shapes.antt =====
-- The documented form of a published device: the example at the top of mqtt_bridge/devices.py, with the
-- entries that clients of zigbee2mqtt read.
use matter_thread2mqtt.Prelude.{
  Text, List, [], ◌∷◌, Bool, true, false, ◌&&◌, ◌||◌, Option, none, some, contains, text_eq,
}
use matter_thread2mqtt.Python.{
  int, Value, null, bool, num, str, list, dict, Items, nil, cons, Fields, end, field, get, codes,
}

mutual
  -- The form of a json value.
  pub data Shape : Type 0 where
    anything text integer boolean : Shape
    one_of : List Text → Shape
    exactly : Bool → Shape
    nullable : Shape → Shape
    either : Shape → Shape → Shape
    listing : Shape → Shape
    -- a dict with any keys, whose values have this form
    table : Shape → Shape
    -- a dict with these keys at least
    object : Entries → Shape

  pub data Entries : Type 0 where
    closed : Entries
    required : Text → Shape → Entries → Entries

abbrev pub all_items : (Value → Bool) → Items → Bool
all_items p nil = true
all_items p (cons v vs) = p v && all_items p vs

abbrev pub all_values : (Value → Bool) → Fields → Bool
all_values p end = true
all_values p (field k v fs) = p v && all_values p fs

abbrev pub is_there : (Value → Bool) → Option Value → Bool
is_there p (some v) = p v
is_there p none = false

abbrev pub is_textual : Value → Bool
is_textual (str s) = true
is_textual v = false

abbrev pub is_integer : Value → Bool
is_integer (num (int i)) = true
is_integer v = false

abbrev pub is_boolean : Value → Bool
is_boolean (bool b) = true
is_boolean v = false

abbrev pub is_null : Value → Bool
is_null null = true
is_null v = false

abbrev pub is_among : List Text → Value → Bool
is_among ts (str s) = contains ts s
is_among ts v = false

abbrev pub is_exactly : Bool → Value → Bool
is_exactly true (bool b) = b
is_exactly false (bool true) = false
is_exactly false (bool false) = true
is_exactly b v = false

abbrev pub in_list : (Value → Bool) → Value → Bool
in_list p (list vs) = all_items p vs
in_list p v = false

abbrev pub in_dict : (Fields → Bool) → Value → Bool
in_dict p (dict fs) = p fs
in_dict p v = false

unfoldable mutual
  unfolding contains get

  pub conforms : Shape → Value → Bool
  conforms anything v = true
  conforms text v = is_textual v
  conforms integer v = is_integer v
  conforms boolean v = is_boolean v
  conforms (one_of ts) v = is_among ts v
  conforms (exactly b) v = is_exactly b v
  conforms (nullable s) v = is_null v || conforms s v
  conforms (either s t) v = conforms s v || conforms t v
  conforms (listing s) v = in_list (conforms s) v
  conforms (table s) v = in_dict (all_values (conforms s)) v
  conforms (object es) v = in_dict (has_entries es) v

  pub has_entries : Entries → Fields → Bool
  has_entries closed fs = true
  has_entries (required k s es) fs = is_there (conforms s) (get k fs) && has_entries es fs

-- `exposes`
abbrev pub entry_types : List Text
entry_types = codes "binary" ∷ codes "numeric" ∷ codes "composite" ∷ codes "enum" ∷ []

abbrev pub feature_shape : Shape
feature_shape = object (
    required (codes "type") (one_of entry_types) (
      required (codes "name") text (
        required (codes "property") text
          (required (codes "access") integer (required (codes "endpoint") integer closed)))))

abbrev pub group_shape : Shape
group_shape = object (
    required (codes "type") (one_of (codes "light" ∷ codes "switch" ∷ [])) (
      required (codes "endpoint") integer
        (required (codes "features") (listing feature_shape) closed)))

abbrev pub definition_shape : Shape
definition_shape = object (
    required (codes "vendor") anything (
      required (codes "model") anything (
        required (codes "description") (nullable text) (
          required (codes "supports_ota") boolean
            (required (codes "exposes") (listing (either feature_shape group_shape)) closed)))))

abbrev pub endpoint_shape : Shape
endpoint_shape = object (
    required (codes "device_types") (listing text)
      (required (codes "clusters") (listing text) closed))

abbrev pub networks : List Text
networks = codes "thread" ∷ codes "wifi" ∷ codes "ethernet" ∷ codes "unknown" ∷ []

abbrev pub device_shape : Shape
device_shape = object (
    required (codes "node_id") integer (
      required (codes "friendly_name") text (
        required (codes "available") boolean (
          required (codes "network") (one_of networks) (
            required (codes "interview_completed") (exactly true) (
              required (codes "interviewing") (exactly false) (
                required (codes "last_interview") anything (
                  required (codes "interview_version") anything (
                    required (codes "definition") definition_shape
                      (required (codes "endpoints") (table endpoint_shape) closed))))))))))
