-- ===== src/Nodes/Entries.antt =====
-- The entries that a capability exposes carry its property, its access and its endpoint.
use matter_thread2mqtt.Prelude.{
  contains, Text, List, [], ◌∷◌, Bool, true, false, not, ◌&&◌, Option, none, some, ◌≡◌, refl, ◌∙◌,
  eqb_list, eqb_list_iff, nat_eq, text_eq, arith, All,
}
use matter_thread2mqtt.Python.{
  int, Value, num, str, bool, Fields, end, field, get, ok, Holds, Holds-bind, codes,
}
use matter_thread2mqtt.Devices.{
  Cap, Kind, name, access, on_off_cap, level_cap, color_temp_cap, color_cap, color_mode_cap,
  action_cap, sensor_cap, Sensor,
}
use matter_thread2mqtt.Nodes.Shapes.{entry_types}
use matter_thread2mqtt.Nodes.{
  put_field, number, base, expose, sensor_unit, sensor_binary, expose_kind, expose_color, composite,
  with_values, with_range, action_values, expose_sensor, sensor_base, with_unit,
}

-- The entry is one of this capability, with a name and one of the documented types.
pub record IsEntry (c : Cap) (e : Fields) : Type 0 where
  pub property : get (codes "property") e ≡ some (str c.prop)
  pub bits : get (codes "access") e ≡ some (number (access c.kind))
  pub endpoint : get (codes "endpoint") e ≡ some (num (int c.ep))
  pub titled : (n : Text) × (get (codes "name") e ≡ some (str n))
  pub typed : (t : Text) × (get (codes "type") e ≡ some (str t)) × (contains entry_types t ≡ true)

base-IsEntry : (c : Cap) (t : Text) → contains entry_types t ≡ true → IsEntry c (base c t)
unfolding base get eqb_list
base-IsEntry c t h = record {
  property = refl;
  bits = refl;
  endpoint = refl;
  titled = (name c.kind, refl);
  typed = (t, refl, h);
}

-- Another key keeps what it had.
pub get-put_field :
    (k j : Text) (v : Value) (fs : Fields)
    → eqb_list j k ≡ false
    → get k (put_field j v fs) ≡ get k fs
unfolding get put_field
get-put_field k j v end h = ground (arith)
get-put_field k j v (field i w fs) h =
    ground (arith, get-put_field k j v fs, eqb_list_iff i j, eqb_list_iff i k, eqb_list_iff j k)

pub get-put_field_same : (k : Text) (v : Value) (fs : Fields) → get k (put_field k v fs) ≡ some v
unfolding get put_field
get-put_field_same k v end = ground (arith, eqb_list_iff k k)
get-put_field_same k v (field i w fs) =
    ground (arith, get-put_field_same k v fs, eqb_list_iff i k, eqb_list_iff k k)

-- A key that `base` does not use.
abbrev is_free : Text → Bool
is_free k =
    not (eqb_list k (codes "property"))
    && (not (eqb_list k (codes "access"))
        && (not (eqb_list k (codes "endpoint"))
            && (not (eqb_list k (codes "type")) && not (eqb_list k (codes "name")))))

put_field-IsEntry :
    (c : Cap) (e : Fields) (k : Text) (v : Value)
    → is_free k ≡ true
    → IsEntry c e
    → IsEntry c (put_field k v e)
put_field-IsEntry c e k v free h = record {
  property = get-put_field (codes "property") k v e (ground arith) ∙ h.property;
  bits = get-put_field (codes "access") k v e (ground arith) ∙ h.bits;
  endpoint = get-put_field (codes "endpoint") k v e (ground arith) ∙ h.endpoint;
  titled = (h.titled.0, get-put_field (codes "name") k v e (ground arith) ∙ h.titled.1);
  typed = (h.typed.0, get-put_field (codes "type") k v e (ground arith) ∙ h.typed.1, h.typed.2);
}

-- `"name": name` over the capability's own.
named-IsEntry :
    (c : Cap) (e : Fields) (n : Text) → IsEntry c e → IsEntry c (put_field (codes "name") (str n) e)
unfolding eqb_list
named-IsEntry c e n h = record {
  property = get-put_field (codes "property") (codes "name") (str n) e refl ∙ h.property;
  bits = get-put_field (codes "access") (codes "name") (str n) e refl ∙ h.bits;
  endpoint = get-put_field (codes "endpoint") (codes "name") (str n) e refl ∙ h.endpoint;
  titled = (n, get-put_field_same (codes "name") (str n) e);
  typed = (
    h.typed.0,
    get-put_field (codes "type") (codes "name") (str n) e refl ∙ h.typed.1,
    h.typed.2,
  );
}

sensor_base-IsEntry : (c : Cap) (b : Bool) → IsEntry c (sensor_base c b)
unfolding sensor_base eqb_list contains
sensor_base-IsEntry c true = put_field-IsEntry c _ (codes "value_off") (bool false) refl (
    put_field-IsEntry c _ (codes "value_on") (bool true) refl
      (base-IsEntry c (codes "binary") refl))
sensor_base-IsEntry c false = base-IsEntry c (codes "numeric") refl

composite-IsEntry : (c : Cap) (n : Text) (a b : Value) → IsEntry c (composite c n a b)
unfolding composite eqb_list contains
composite-IsEntry c n a b =
    put_field-IsEntry c _ (codes "features") _ refl
      (named-IsEntry c _ n (base-IsEntry c (codes "composite") refl))

with_values-IsEntry : (c : Cap) (ts : List Text) → IsEntry c (with_values c ts)
unfolding with_values eqb_list contains
with_values-IsEntry c ts =
    put_field-IsEntry c _ (codes "values") _ refl (base-IsEntry c (codes "enum") refl)

with_range-IsEntry :
    (c : Cap) (vmin vmax : Value) (e : Fields) → IsEntry c e → IsEntry c (with_range c vmin vmax e)
unfolding with_range eqb_list contains
with_range-IsEntry c vmin vmax e h =
    put_field-IsEntry c _ (codes "value_max") vmax refl
      (put_field-IsEntry c e (codes "value_min") vmin refl h)

expose_color-IsEntry : (c : Cap) (hs xy : Bool) → All (IsEntry c) (expose_color c hs xy)
unfolding expose_color
expose_color-IsEntry c true true = (composite-IsEntry c _ _ _, (composite-IsEntry c _ _ _, tt))
expose_color-IsEntry c true false = (composite-IsEntry c _ _ _, tt)
expose_color-IsEntry c false true = (composite-IsEntry c _ _ _, tt)
expose_color-IsEntry c false false = tt

with_unit-IsEntry :
    (c : Cap) (u : Option Text) (e : Fields) → IsEntry c e → IsEntry c (with_unit u e)
unfolding with_unit eqb_list contains
with_unit-IsEntry c (some u) e h = put_field-IsEntry c e (codes "unit") (str u) refl h
with_unit-IsEntry c none e h = h

expose_sensor-IsEntry : (c : Cap) (s : Sensor) → IsEntry c (expose_sensor c s)
unfolding expose_sensor
expose_sensor-IsEntry c s =
    with_unit-IsEntry c (sensor_unit s) _ (sensor_base-IsEntry c (sensor_binary s))

expose_kind-IsEntry : (c : Cap) (k : Kind) → Holds (All (IsEntry c)) (expose_kind c k)
unfolding expose_kind eqb_list contains
expose_kind-IsEntry c on_off_cap = (
  put_field-IsEntry c _ (codes "value_toggle") _ refl (
      put_field-IsEntry c _ (codes "value_off") _ refl
        (put_field-IsEntry c _ (codes "value_on") _ refl (base-IsEntry c (codes "binary") refl))),
  tt,
)
expose_kind-IsEntry c (level_cap vmin vmax) =
    (with_range-IsEntry c vmin vmax _ (base-IsEntry c (codes "numeric") refl), tt)
expose_kind-IsEntry c (color_temp_cap vmin vmax) = (
  with_range-IsEntry c vmin vmax _
      (put_field-IsEntry c _ (codes "unit") _ refl (base-IsEntry c (codes "numeric") refl)),
  tt,
)
expose_kind-IsEntry c (color_cap hs xy) = expose_color-IsEntry c hs xy
expose_kind-IsEntry c (color_mode_cap values) = (with_values-IsEntry c values, tt)
expose_kind-IsEntry c (action_cap latching multi long release positions max_presses) =
    Holds-bind (All (IsEntry c)) (action_values latching multi long positions max_presses)
      (λ values. ok (with_values c values ∷ [])) λ values e. (with_values-IsEntry c values, tt)
expose_kind-IsEntry c (sensor_cap s) = (expose_sensor-IsEntry c s, tt)

-- Every entry that a capability exposes has the capability's own property, access bits and endpoint.
pub expose-IsEntry : (c : Cap) → Holds (All (IsEntry c)) (expose c)
unfolding expose
expose-IsEntry c = expose_kind-IsEntry c c.kind
