-- ===== src/Nodes/Exposes.antt =====
-- `base` and `expose` of every capability: the entries that mqtt clients read.
use matter_thread2mqtt.Prelude.{
  ℕ, zero, suc, ◌-◌, pos, negsuc, Text, List, [], ◌∷◌, ◌++◌, map, Bool, true, false, Option, none,
  some, ◌==◌, text_eq, if◌then◌else◌,
}
use matter_thread2mqtt.Python.{
  int, Value, bool, num, str, list, dict, Items, nil, cons, Fields, end, field, Outcome, ok, raise,
  type_error, ◌>>=◌, codes, show_ℕ,
}
use matter_thread2mqtt.Devices.{
  Kind, on_off_cap, level_cap, color_temp_cap, color_cap, color_mode_cap, action_cap, sensor_cap,
  Sensor, temperature, humidity, pressure, illuminance, occupancy, contact, battery, battery_low,
  name, access, Cap, press_name,
}

-- `d[k] = v` of a json object: a key that is there keeps its place.
unfoldable pub put_field : Text → Value → Fields → Fields
put_field k v end = field k v end
put_field k v (field j w fs) =
    let rest = put_field k v fs in if j == k then field j v fs else field j w rest

abbrev pub number : ℕ → Value
number n = num (int (pos n))

-- Lists of json values
abbrev pub items : List Value → Items
items [] = nil
items (v ∷ vs) = cons v (items vs)

abbrev pub texts : List Text → Value
texts ts = list (items (map (λ t. str t) ts))

abbrev pub objects : List Fields → Value
objects es = list (items (map (λ e. dict e) es))

unfoldable pub base : Cap → Text → Fields
unfolding name access
base c type = field (codes "type") (str type) (
    field (codes "name") (str (name c.kind)) (
      field (codes "property") (str c.prop) (
        field (codes "access") (number (access c.kind))
          (field (codes "endpoint") (num (int c.ep)) end))))

-- The column `unit` of `SENSORS`, and the column `binary`
unfoldable pub sensor_unit : Sensor → Option Text
sensor_unit temperature = some (0xB0 ∷ codes "C")
sensor_unit humidity = some (codes "%")
sensor_unit pressure = some (codes "hPa")
sensor_unit illuminance = some (codes "lx")
sensor_unit battery = some (codes "%")
sensor_unit _ = none

unfoldable pub sensor_binary : Sensor → Bool
sensor_binary occupancy = true
sensor_binary contact = true
sensor_binary battery_low = true
sensor_binary _ = false

unfoldable pub sensor_base : Cap → Bool → Fields
unfolding base put_field
sensor_base c true =
    put_field (codes "value_off") (bool false)
      (put_field (codes "value_on") (bool true) (base c (codes "binary")))
sensor_base c false = base c (codes "numeric")

unfoldable pub with_unit : Option Text → Fields → Fields
unfolding put_field
with_unit (some u) e = put_field (codes "unit") (str u) e
with_unit none e = e

unfoldable pub expose_sensor : Cap → Sensor → Fields
unfolding sensor_base sensor_unit sensor_binary with_unit
expose_sensor c s = with_unit (sensor_unit s) (sensor_base c (sensor_binary s))

-- `ColorCap.feature`
unfoldable pub feature : Cap → Text → ℕ → ℕ → Value
unfolding access
feature c n vmin vmax = dict (
    field (codes "type") (str (codes "numeric")) (
      field (codes "name") (str n) (
        field (codes "property") (str n) (
          field (codes "access") (number (access c.kind)) (
            field (codes "value_min") (number vmin)
              (field (codes "value_max") (number vmax) end))))))

unfoldable pub composite : Cap → Text → Value → Value → Fields
unfolding base put_field
composite c n a b =
    put_field (codes "features") (list (items (a ∷ b ∷ [])))
      (put_field (codes "name") (str n) (base c (codes "composite")))

unfoldable pub expose_color : Cap → Bool → Bool → List Fields
unfolding composite feature
expose_color c hs xy =
    (if hs
      then composite c (codes "color_hs") (feature c (codes "hue") 0 360)
          (feature c (codes "saturation") 0 100)
        ∷ []
      else [])
    ++ (if xy
        then composite c (codes "color_xy") (feature c (codes "x") 0 1) (feature c (codes "y") 0 1)
          ∷ []
        else [])

-- `range(from, from + n)`, each as a name
unfoldable pub position_names : ℕ → ℕ → List Text
unfolding show_ℕ
position_names i zero = []
position_names i (suc n) = (codes "position_" ++ show_ℕ i) ∷ position_names (suc i) n

unfoldable pub press_names : ℕ → ℕ → List Text
unfolding press_name
press_names i zero = []
press_names i (suc n) = press_name (pos i) ∷ press_names (suc i) n

-- An upper bound that `range` accepts; a negative one gives an empty range.
unfoldable pub bound_of : Value → Outcome ℕ
bound_of (num (int (pos n))) = ok n
bound_of (num (int (negsuc n))) = ok 0
bound_of (bool b) = ok (if b then 1 else 0)
bound_of _ = raise type_error

unfoldable pub action_values :
    (latching multi long : Bool) → (positions max_presses : Value) → Outcome (List Text)
unfolding bound_of position_names press_names
action_values true multi long positions max_presses = do
  n ← bound_of positions
  ok (position_names 0 n)
action_values false multi long positions max_presses = do
  more ← if multi then (do n ← bound_of max_presses; ok (press_names 2 (n - 1))) else ok []
  ok (codes "single" ∷ (more ++ (if long then codes "hold" ∷ codes "release" ∷ [] else [])))

unfoldable pub with_values : Cap → List Text → Fields
unfolding base put_field
with_values c values = put_field (codes "values") (texts values) (base c (codes "enum"))

unfoldable pub with_range : Cap → Value → Value → Fields → Fields
unfolding put_field
with_range c vmin vmax e = put_field (codes "value_max") vmax (put_field (codes "value_min") vmin e)

unfoldable pub expose_on_off : Cap → Fields
unfolding base put_field
expose_on_off c = put_field (codes "value_toggle") (str (codes "TOGGLE")) (
    put_field (codes "value_off") (str (codes "OFF"))
      (put_field (codes "value_on") (str (codes "ON")) (base c (codes "binary"))))

unfoldable pub expose_color_temp : Cap → Value → Value → Fields
unfolding base put_field with_range
expose_color_temp c vmin vmax =
    with_range c vmin vmax
      (put_field (codes "unit") (str (codes "mired")) (base c (codes "numeric")))

unfoldable pub expose_kind : Cap → Kind → Outcome (List Fields)
unfolding expose_on_off expose_color_temp base with_range expose_color with_values action_values
    expose_sensor
expose_kind c on_off_cap = ok (expose_on_off c ∷ [])
expose_kind c (level_cap vmin vmax) = ok (with_range c vmin vmax (base c (codes "numeric")) ∷ [])
expose_kind c (color_temp_cap vmin vmax) = ok (expose_color_temp c vmin vmax ∷ [])
expose_kind c (color_cap hs xy) = ok (expose_color c hs xy)
expose_kind c (color_mode_cap values) = ok (with_values c values ∷ [])
expose_kind c (action_cap latching multi long release positions max_presses) = do
  values ← action_values latching multi long positions max_presses
  ok (with_values c values ∷ [])
expose_kind c (sensor_cap s) = ok (expose_sensor c s ∷ [])

unfoldable pub expose : Cap → Outcome (List Fields)
unfolding expose_kind
expose c = expose_kind c c.kind
